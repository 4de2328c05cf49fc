-- ===== src/Reach/Relation.antt =====
-- `add_reachable` and `is_reachable` against the set of the pairs that were added.
use rupta_fork.Base.{
  ℕ, ◌<◌, ◌≡◌, sym, ap, ◌∙◌, [], true, false, ◌||◌, ◌&&◌, ◌==◌, some, ltb, if◌then◌else◌, length,
  get_elem?, get_or, set, resize, arith, ℕ_discrete, length-set, length-resize, All, set-All,
  get_or-All, resize-All, get_or-set_self, get_or-set_ne, get_or-resize, get_or_beyond, subst,
  dec_lt,
}
use mathlib.Core.Option.{some-injective}
use rupta_fork.Reach.{RowRelation, ReachabilityRelation, new, is_reachable, add_reachable}
use rupta_fork.Reach.Rows.{get_elem?-get_or}

module _ (R : RowRelation) where
  open R use {Row}

  -- One row for each node, each for as many nodes.
  pub record IsValid (r : ReachabilityRelation Row) : Type 0 where
    pub square : length r.relation_matrix ≡ r.num_nodes
    pub rows : All (R.IsRow r.num_nodes) r.relation_matrix

  pub new-IsValid : (n : ℕ) → IsValid (new R n)
  unfolding new
  new-IsValid n = record {
    square = length-resize [] n (R.with_capacity n);
    rows = resize-All (R.IsRow n) [] n (R.with_capacity n) (R.with_capacity-IsRow n) tt;
  }

  module _ (r : ReachabilityRelation Row) (v : IsValid r) where
    abbrev row : ℕ → Row
    row i = get_or r.relation_matrix i (R.with_capacity r.num_nodes)

    row-IsRow : (i : ℕ) → R.IsRow r.num_nodes (row i)
    row-IsRow i =
        get_or-All (R.IsRow r.num_nodes) r.relation_matrix i (R.with_capacity r.num_nodes)
          (R.with_capacity-IsRow r.num_nodes) v.rows

    stored_row : (i : ℕ) → i < r.num_nodes → get_elem? r.relation_matrix i ≡ some (row i)
    stored_row i h =
        get_elem?-get_or r.relation_matrix i (R.with_capacity r.num_nodes)
          (subst (λ n. i < n) (sym v.square) h)

    pub is_reachable-reads :
        (a b : ℕ)
        → is_reachable R r a b ≡ some (ltb a r.num_nodes && ltb b r.num_nodes && R.reads (row a) b)
    unfolding is_reachable
    is_reachable-reads a b = elim (dec_lt a r.num_nodes) [
      | yes ha ↦ elim (dec_lt b r.num_nodes) [
        | yes hb ↦
            ground (arith, stored_row a ha, R.contains-reads r.num_nodes (row a) b (row-IsRow a) hb)
        | no hb ↦ ground arith
      ]
      | no ha ↦ ground arith
    ]

    -- The relation after the pair of `a` and `b` has been written.
    abbrev grown : ℕ → ℕ → ReachabilityRelation Row
    grown a b = record r { relation_matrix = set r.relation_matrix a (R.written (row a) b) }

    grown-IsValid : (a b : ℕ) → b < r.num_nodes → IsValid (grown a b)
    grown-IsValid a b hb = record {
      square = length-set r.relation_matrix a (R.written (row a) b) ∙ v.square;
      rows =
          set-All (R.IsRow r.num_nodes) r.relation_matrix a (R.written (row a) b)
            (R.written-IsRow r.num_nodes (row a) b (row-IsRow a) hb) v.rows;
    }

    grown-row :
        (a b x y : ℕ)
        → a < r.num_nodes
        → b < r.num_nodes
        → R.reads (get_or (grown a b).relation_matrix x (R.with_capacity r.num_nodes)) y
          ≡ (x == a && y == b || R.reads (row x) y)
    grown-row a b x y ha hb = elim (ℕ_discrete a x) [
      | yes e ↦
          subst
            (λ z.
              R.reads (get_or (grown a b).relation_matrix z (R.with_capacity r.num_nodes)) y
              ≡ (z == a && y == b || R.reads (row z) y))
            e
            (ground (
              arith,
              ap (λ t. R.reads t y)
                  (get_or-set_self r.relation_matrix a (R.written (row a) b)
                    (R.with_capacity r.num_nodes) (subst (λ n. a < n) (sym v.square) ha)),
              R.reads-written r.num_nodes (row a) b y (row-IsRow a) hb,
            ))
      | no ne ↦ ground (
        arith,
        ap (λ t. R.reads t y)
            (get_or-set_ne r.relation_matrix a x (R.written (row a) b) (R.with_capacity r.num_nodes)
              ne),
      )
    ]

  add_reachable-grown :
      (r : ReachabilityRelation Row) (v : IsValid r) (a b : ℕ)
      → a < r.num_nodes
      → b < r.num_nodes
      → add_reachable R r a b ≡ some (grown r v a b)
  unfolding add_reachable
  add_reachable-grown r v a b ha hb =
      ground (
        arith,
        stored_row r v a ha,
        R.insert-written r.num_nodes (row r v a) b (row-IsRow r v a) hb,
      )

  -- On a relation with a row for each node, whichever kind of rows it has, `add_reachable` of
  -- two nodes in range does not panic and gives such a relation, in which `is_reachable` holds
  -- of that pair and answers as before for every other pair, in range or not.
  pub add_reachable_lem :
      (r : ReachabilityRelation Row) (a b : ℕ)
      → IsValid r
      → a < r.num_nodes
      → b < r.num_nodes
      → (r' : ReachabilityRelation Row) × (add_reachable R r a b ≡ some r')
        × IsValid r'
        × ((x y : ℕ)
            → is_reachable R r' x y
              ≡ (if x == a && y == b then some true else is_reachable R r x y))
  add_reachable_lem r a b v ha hb = (
    grown r v a b,
    add_reachable-grown r v a b ha hb,
    grown-IsValid r v a b hb,
    λ x y. ground (
      arith,
      is_reachable-reads (grown r v a b) (grown-IsValid r v a b hb) x y,
      is_reachable-reads r v x y,
      grown-row r v a b x y ha hb,
    ),
  )

  pub num_nodes-add_reachable :
      (r r' : ReachabilityRelation Row) (a b : ℕ)
      → IsValid r
      → a < r.num_nodes
      → b < r.num_nodes
      → add_reachable R r a b ≡ some r'
      → r'.num_nodes ≡ r.num_nodes
  num_nodes-add_reachable r r' a b v ha hb h =
      ap (λ (x : ReachabilityRelation Row). x.num_nodes)
        (some-injective r' (grown r v a b) (sym h ∙ add_reachable-grown r v a b ha hb))

  -- In a new relation `is_reachable` answers false for every pair, in range or not, without a
  -- panic.
  pub is_reachable-new : (n a b : ℕ) → is_reachable R (new R n) a b ≡ some false
  unfolding new
  is_reachable-new n a b = ground (
    arith,
    is_reachable-reads (new R n) (new-IsValid n) a b,
    ap (λ t. R.reads t b) (all_new n a),
    R.reads-with_capacity n b,
  )
    where
      all_new :
          (n a : ℕ)
          → get_or (resize [] n (R.with_capacity n)) a (R.with_capacity n) ≡ R.with_capacity n
      all_new n a = elim (dec_lt a n) [
        | yes h ↦ get_or-resize [] n a (R.with_capacity n) h
        | no h ↦
            get_or_beyond (resize [] n (R.with_capacity n)) a (R.with_capacity n)
              (omega (arith, length-resize [] n (R.with_capacity n)))
      ]
