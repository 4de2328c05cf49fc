-- ===== src/FuncReach/Parallel.antt =====
-- The parallel computation: every order of its rounds gives the same relation.
use rupta_fork.Base.{
  ℕ, zero, suc, ◌<◌, ◌≡◌, ◌≢◌, ◌↔◌, refl, sym, ap, subst, ◌∙◌, List, [], ◌∷◌, Bool, true, false,
  Option, some, length, get_elem?, has, arith, ℕ_discrete, dec_lt, inl, inr, ◌⊎◌,
}
use mathlib.Core.Option
use mathlib.Core.Option.{some-injective}
use mathlib.Core.Bool.{false≢true}
use rupta_fork.ChunkedQueue.{ArrayVec, chunk_cap}
use rupta_fork.Reach.{RowRelation, ReachabilityRelation, is_reachable}
use rupta_fork.Reach.Relation.{IsValid}
use rupta_fork.CallGraph.{DiGraph, CallGraphNode, CallGraphEdge}
use rupta_fork.CallGraph.Edges.{InRange}
use rupta_fork.Base.{set, resize, length-set, length-resize, All, get_elem?-lt}
use rupta_fork.CallGraph.{Cg}
use rupta_fork.FuncReach.{fill_rows, compute_func_reach_relations_mt}
use rupta_fork.FuncReach.Paths.{Reaches}
use rupta_fork.FuncReach.Search.{Reaches-lt, reachable_funcs-Found}

get_elem?-set_self {ℓ} :
    {A : Type ℓ} (xs : List A) (i : ℕ) (x : A) → i < length xs → get_elem? (set xs i x) i ≡ some x
get_elem?-set_self [] i x h = absurd (omega arith)
get_elem?-set_self (y ∷ xs) zero x h = refl
get_elem?-set_self (y ∷ xs) (suc i) x h = get_elem?-set_self xs i x (omega arith)

get_elem?-set_ne {ℓ} :
    {A : Type ℓ} (xs : List A) (i j : ℕ) (x : A) → i ≢ j → get_elem? (set xs i x) j ≡ get_elem? xs j
get_elem?-set_ne [] i j x ne = refl
get_elem?-set_ne (y ∷ xs) zero zero x ne = absurd (ne refl)
get_elem?-set_ne (y ∷ xs) zero (suc j) x ne = refl
get_elem?-set_ne (y ∷ xs) (suc i) zero x ne = refl
get_elem?-set_ne (y ∷ xs) (suc i) (suc j) x ne = get_elem?-set_ne xs i j x (λ e. ne (ap suc e))

All-get_elem? {κ} :
    {A : Type 0} (P : A → Type κ) (xs : List A)
    → ((i : ℕ) (x : A) → get_elem? xs i ≡ some x → P x)
    → All P xs
All-get_elem? P [] h = tt
All-get_elem? P (x ∷ xs) h = (h 0 x refl, All-get_elem? P xs (λ i y e. h (suc i) y e))

module _ {S B : Type 0} (dec_s : Discrete S) (dec_b : Discrete B) (dec_f : Discrete ℕ)
    (D : DiGraph (CallGraphNode ℕ) (CallGraphEdge S)) (V : ArrayVec ℕ chunk_cap)
    (R : RowRelation) where
  -- The relation of a graph: who calls whom, over one call or more.
  pub record IsReach (g : D.Graph) (q : ReachabilityRelation R.Row) : Type 0 where
    pub valid : IsValid R q
    pub size : q.num_nodes ≡ D.node_count g
    pub exact : (i j : ℕ) → (is_reachable R q i j ≡ some true) ↔ Reaches (D.neighbors g) i j

  module _ (g : D.Graph) (r : InRange dec_f dec_s dec_b D V g) where
    -- The row of node `i` is there and complete.
    Filled : List R.Row → ℕ → Type 0
    Filled m i =
        (row : R.Row) × (get_elem? m i ≡ some row)
        × R.IsRow (D.node_count g) row
        × ((j : ℕ) → (R.reads row j ≡ true) ↔ Reaches (D.neighbors g) i j)

    fill_rows-Filled :
        (order : List ℕ) (m : List R.Row)
        → length m ≡ D.node_count g
        → ((i : ℕ) → has order i ≡ true → i < D.node_count g)
        → ((i : ℕ) → i < D.node_count g → (has order i ≡ true) ⊎ Filled m i)
        → (m' : List R.Row) × (fill_rows dec_s dec_b dec_f D V R g order m ≡ some m')
          × (length m' ≡ D.node_count g)
          × ((i : ℕ) → i < D.node_count g → Filled m' i)
    unfolding fill_rows Filled Option.bind
    fill_rows-Filled [] m size within todo =
        (m, refl, size, λ i lt. elim (todo i lt) [ inl h ↦ absurd (false≢true h) | inr f ↦ f ])
    fill_rows-Filled (k ∷ order) m size within todo =
        let lt = within k (ground arith) in
        let (row, done, ok, exact) = reachable_funcs-Found dec_s dec_b dec_f D V R g r k in
        let (m', filled, size', all) =
          fill_rows-Filled order (set m k row) (length-set m k row ∙ size)
            (λ i h. within i (ground (arith, h)))
            (λ i h. elim (ℕ_discrete k i) [
              | yes e ↦ inr (
                row,
                subst (λ x. get_elem? (set m k row) x ≡ some row) e
                    (get_elem?-set_self m k row (subst (λ n. k < n) (sym size) lt)),
                ok,
                subst (λ x. (j : ℕ) → (R.reads row j ≡ true) ↔ Reaches (D.neighbors g) x j) e exact,
              )
              | no ne ↦ elim (todo i h) [
                | inl later ↦ inl (ground (arith, later))
                | inr (old, there, kept, all) ↦
                    inr (old, get_elem?-set_ne m k i row ne ∙ there, kept, all)
              ]
            ]) in
        (m', rw (done, fill_rows) filled, size', all)

    Filled-IsReach :
        (m : List R.Row)
        → length m ≡ D.node_count g
        → ((i : ℕ) → i < D.node_count g → Filled m i)
        → IsReach g (record { num_nodes = D.node_count g; relation_matrix = m })
    unfolding Filled is_reachable
    Filled-IsReach m size all = record {
      valid = record {
        square = size;
        rows = All-get_elem? (R.IsRow (D.node_count g)) m (λ i x there.
            let (row, found, ok, _) = all i (subst (λ n. i < n) size (get_elem?-lt m x i there)) in
            subst (R.IsRow (D.node_count g)) (some-injective row x (sym found ∙ there)) ok);
      };
      size = refl;
      exact = λ i j. elim (dec_lt i (D.node_count g)) [
        | yes li ↦ elim (dec_lt j (D.node_count g)) [
          | yes lj ↦
              let (row, found, ok, exact) = all i li in
              answer
                (is_reachable R (record { num_nodes = D.node_count g; relation_matrix = m }) i j)
                (R.reads row j) (Reaches (D.neighbors g) i j)
                (ground (arith, found, R.contains-reads (D.node_count g) row j ok lj)) (exact j)
          | no gj ↦
              beyond i j (λ p. absurd (gj (Reaches-lt dec_s dec_b dec_f D V R g r i j p).1))
                (ground arith)
        ]
        | no gi ↦
            beyond i j (λ p. absurd (gi (Reaches-lt dec_s dec_b dec_f D V R g r i j p).0))
              (ground arith)
      ];
    }
      where
        answer :
            (o : Option Bool) (b : Bool) (P : Type 0)
            → o ≡ some b
            → (b ≡ true) ↔ P
            → (o ≡ some true) ↔ P
        answer o b P e (f, h) = (λ t. f (some-injective b true (sym e ∙ t)), λ p. e ∙ ap some (h p))

        beyond :
            (i j : ℕ)
            → ¬ Reaches (D.neighbors g) i j
            → is_reachable R (record { num_nodes = D.node_count g; relation_matrix = m }) i j
              ≡ some false
            → (is_reachable R (record { num_nodes = D.node_count g; relation_matrix = m }) i j
                ≡ some true)
              ↔ Reaches (D.neighbors g) i j
        beyond i j no_path e = (
          λ t. absurd (false≢true (some-injective false true (sym e ∙ t))),
          λ p. absurd (no_path p),
        )

  pub compute_func_reach_relations_mt-IsReach :
      (cg : Cg dec_f dec_s dec_b D V) (order : List ℕ)
      → InRange dec_f dec_s dec_b D V cg.graph
      → ((i : ℕ) → (has order i ≡ true) ↔ (i < D.node_count cg.graph))
      → (q : ReachabilityRelation R.Row) × (compute_func_reach_relations_mt dec_s dec_b dec_f D V R
            cg order
          ≡ some q)
        × IsReach cg.graph q
  unfolding compute_func_reach_relations_mt
  compute_func_reach_relations_mt-IsReach cg order r whole =
      let (m, done, size, all) =
        fill_rows-Filled cg.graph r order (resize [] (D.node_count cg.graph) R.new_empty)
          (length-resize [] (D.node_count cg.graph) R.new_empty) (λ i. (whole i).0)
          (λ i lt. inl ((whole i).1 lt)) in
      (
        record { num_nodes = D.node_count cg.graph; relation_matrix = m },
        rw (done, compute_func_reach_relations_mt) refl,
        Filled-IsReach cg.graph r m size all,
      )
