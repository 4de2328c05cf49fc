-- ===== src/Pag/AddEdge.antt =====
-- `add_edge`: one more edge between two paths, if it is not there, whatever its kind.
use rupta_fork.Base.{
  ℕ, suc, length-append, ◌+◌, ◌≡◌, ◌⊎◌, inl, inr, refl, sym, ap, subst, ◌∙◌, [], ◌∷◌, ◌++◌, Bool,
  true, false, ◌&&◌, ◌||◌, some, if◌then◌else◌, length, arith, Bool-cases, Bool_ext, get_elem?-lt,
}
use mathlib.Core.Bool.{false≢true}
use mathlib.Core.Option.{some-injective}
use rupta_fork.Base.HashMap
use rupta_fork.Base.HashSet
use rupta_fork.Petgraph.{DiGraph}
use rupta_fork.ChunkedQueue.{ArrayVec, chunk_cap}
use rupta_fork.Pag.{Pag, PagNode, PagEdge, PagEdgeEnum, PagEdgeEnum-discrete, new_node}
use rupta_fork.Pag.Kinds.{class_of}
use rupta_fork.Pag.Ops.{contains_edge, has_edge}
use rupta_fork.Pag.Valid.{
  edge_of, Leads, IsValid, IsEdge, contains_edge_iff, has_edge_iff, has_edge-known,
}
use rupta_fork.Pag.Links.{Linked}
use rupta_fork.Pag.Fresh.{fresh-Leads, old-Leads, Leads-cases}
use rupta_fork.Pag.Grown.{fresh-IsValid}

-- The edge that is asked for.
unfoldable pub is_asked :
    {P : Type 0} → Discrete P → P → P → PagEdgeEnum → P → P → PagEdgeEnum → Bool
is_asked dec src dst kind x y k =
    HashSet.same dec src x && (HashSet.same dec dst y && HashSet.same PagEdgeEnum-discrete kind k)

asked_same :
    {P : Type 0} (dec : Discrete P) (src dst : P) (kind : PagEdgeEnum) (x y : P) (k : PagEdgeEnum)
    → is_asked dec src dst kind x y k ≡ true
    → (src ≡ x) × (dst ≡ y) × (kind ≡ k)
unfolding is_asked
asked_same dec src dst kind x y k h =
    let (s, r) = both (HashSet.same dec src x) _ h in
    let (d, q) = both (HashSet.same dec dst y) (HashSet.same PagEdgeEnum-discrete kind k) r in
    (
      HashSet.eq_of_same dec src x s,
      HashSet.eq_of_same dec dst y d,
      HashSet.eq_of_same PagEdgeEnum-discrete kind k q,
    )
  where
    both : (a b : Bool) → (a && b) ≡ true → (a ≡ true) × (b ≡ true)
    both true b h = (refl, h)
    both false b h = absurd (false≢true h)

asked_refl :
    {P : Type 0} (dec : Discrete P) (src dst : P) (kind : PagEdgeEnum)
    → is_asked dec src dst kind src dst kind ≡ true
unfolding is_asked
asked_refl dec src dst kind =
    rw (HashSet.same_refl dec src)
      (rw (HashSet.same_refl dec dst) (rw (HashSet.same_refl PagEdgeEnum-discrete kind) refl))

asked_or :
    {P : Type 0} (dec : Discrete P) (src dst : P) (kind : PagEdgeEnum) (x y : P) (k : PagEdgeEnum)
    (b : Bool)
    → src ≡ x
    → dst ≡ y
    → kind ≡ k
    → (is_asked dec src dst kind x y k || b) ≡ true
asked_or dec src dst kind x y k b p q s =
    ap (λ t. t || b)
      (ap (λ t. is_asked dec src dst kind t y k) (sym p)
        ∙ ap (λ t. is_asked dec src dst kind src t k) (sym q)
        ∙ ap (is_asked dec src dst kind src dst) (sym s)
        ∙ asked_refl dec src dst kind)

or_cases : (a b : Bool) → (a || b) ≡ true → (a ≡ true) ⊎ (b ≡ true)
or_cases true b h = inl refl
or_cases false b h = inr h

module _ {P Fp : Type 0} (dec : Discrete P) (D : DiGraph (PagNode P) PagEdge)
    (V : ArrayVec ℕ chunk_cap) where
  module _ (g : Pag P D.Graph V.Vec Fp) (src dst : P) (kind : PagEdgeEnum) where
    -- What `add_edge` is to do.
    pub record AddsEdge (r : Pag P D.Graph V.Vec Fp) : Type 0 where
      pub valid : IsValid dec D V r
      pub edges :
          (x y : P) (k : PagEdgeEnum)
          → has_edge dec D V r x y k ≡ (is_asked dec src dst kind x y k || has_edge dec D V g x y k)
      pub kept :
          (p : P) (i : ℕ)
          → HashMap.get dec g.values p ≡ some i
          → HashMap.get dec r.values p ≡ some i
      pub grown : length (D.ends r.graph) ≡ (
          if has_edge dec D V g src dst kind
          then length (D.ends g.graph)
          else suc (length (D.ends g.graph)))

    pub asked_there :
        (x y : P) (k : PagEdgeEnum)
        → has_edge dec D V g src dst kind ≡ true
        → has_edge dec D V g x y k ≡ (is_asked dec src dst kind x y k || has_edge dec D V g x y k)
    asked_there x y k h = elim (Bool-cases (is_asked dec src dst kind x y k)) [
      | inr other ↦ rw other refl
      | inl asked ↦
          let (s, d, q) = asked_same dec src dst kind x y k asked in
          rw asked (
            ap (λ z. has_edge dec D V g z y k) (sym s)
            ∙ ap (λ z. has_edge dec D V g src z k) (sym d)
            ∙ ap (has_edge dec D V g src dst) (sym q)
            ∙ h)
    ]

    -- The edge is fresh in the graph `g`, which has a node for each of the two paths.
    module _ (v : IsValid dec D V g) (i j : ℕ) (src_node : HashMap.get dec g.values src ≡ some i)
        (dst_node : HashMap.get dec g.values dst ≡ some j) (h : D.Graph)
        (r : Pag P D.Graph V.Vec Fp) (ends : D.ends h ≡ (D.ends g.graph ++ (i, j) ∷ []))
        (labels : D.labels h ≡ (D.labels g.graph ++ edge_of kind ∷ []))
        (weights : D.weights h ≡ D.weights g.graph)
        (l : Linked dec D V
          (class_of kind)
          (record g { graph = h })
          r
          i
          j
          (length (D.ends g.graph))) where
      grown-IsEdge :
          (x y : P) (k : PagEdgeEnum)
          → IsEdge dec D V r x y k
          → (is_asked dec src dst kind x y k || has_edge dec D V g x y k) ≡ true
      unfolding new_node
      grown-IsEdge x y k e =
          elim (Leads-cases D g.graph h i j kind ends labels e.edge_id e.src_id e.dst_id k
            (subst (λ t. Leads D t e.edge_id e.src_id e.dst_id k) l.graph e.leads)) [
              | inl old ↦
                  let found = (has_edge_iff dec D V g x y k).1 (record {
                    src_id = e.src_id;
                    dst_id = e.dst_id;
                    src_node = ap (λ m. HashMap.get dec m x) (sym l.values) ∙ e.src_node;
                    dst_node = ap (λ m. HashMap.get dec m y) (sym l.values) ∙ e.dst_node;
                    edge_id = e.edge_id;
                    leads = old;
                  }) in
                  rw found (any_or_true (is_asked dec src dst kind x y k))
              | inr (_, p, q, s) ↦
                  let same_src : src ≡ x =
                    one_path src x i src_node (
                      ap (λ m. HashMap.get dec m x) (sym l.values)
                      ∙ e.src_node
                      ∙ ap some (sym p)) in
                  let same_dst : dst ≡ y =
                    one_path dst y j dst_node (
                      ap (λ m. HashMap.get dec m y) (sym l.values)
                      ∙ e.dst_node
                      ∙ ap some (sym q)) in
                  asked_or dec src dst kind x y k (has_edge dec D V g x y k) same_src same_dst s
            ]
        where
          any_or_true : (b : Bool) → (b || true) ≡ true
          any_or_true true = refl
          any_or_true false = refl

          one_path :
              (a b : P) (n : ℕ)
              → HashMap.get dec g.values a ≡ some n
              → HashMap.get dec g.values b ≡ some n
              → a ≡ b
          one_path a b n p q =
              ap (λ (x : PagNode P). x.path)
                (some-injective (new_node a) (new_node b)
                  (sym (v.numbered a n p) ∙ v.numbered b n q))

      IsEdge-grown :
          (x y : P) (k : PagEdgeEnum)
          → (is_asked dec src dst kind x y k || has_edge dec D V g x y k) ≡ true
          → IsEdge dec D V r x y k
      IsEdge-grown x y k t =
          elim (or_cases (is_asked dec src dst kind x y k) (has_edge dec D V g x y k) t) [
            | inl asked ↦
                let (s, d, q) = asked_same dec src dst kind x y k asked in
                record {
                  src_id = i;
                  dst_id = j;
                  src_node =
                      ap (HashMap.get dec r.values) (sym s)
                      ∙ ap (λ m. HashMap.get dec m src) l.values
                      ∙ src_node;
                  dst_node =
                      ap (HashMap.get dec r.values) (sym d)
                      ∙ ap (λ m. HashMap.get dec m dst) l.values
                      ∙ dst_node;
                  edge_id = length (D.ends g.graph);
                  leads = subst (Leads D r.graph (length (D.ends g.graph)) i j) q (
                      subst (λ t. Leads D t (length (D.ends g.graph)) i j kind) (sym l.graph)
                        (fresh-Leads D g.graph h i j kind ends labels));
                }
            | inr other ↦
                let e = (has_edge_iff dec D V g x y k).0 other in
                record {
                  src_id = e.src_id;
                  dst_id = e.dst_id;
                  src_node = ap (λ m. HashMap.get dec m x) l.values ∙ e.src_node;
                  dst_node = ap (λ m. HashMap.get dec m y) l.values ∙ e.dst_node;
                  edge_id = e.edge_id;
                  leads =
                      subst (λ t. Leads D t e.edge_id e.src_id e.dst_id k) (sym l.graph)
                        (old-Leads D g.graph h i j kind ends labels e.edge_id e.src_id e.dst_id k
                          e.leads);
                }
          ]

      pub fresh-AddsEdge : contains_edge dec D V g i j kind ≡ false → AddsEdge r
      fresh-AddsEdge missing = record {
        valid =
            fresh-IsValid dec D V g r v h i j kind ends labels weights l
              (get_elem?-lt (D.weights g.graph) (new_node src) i (v.numbered src i src_node))
              (get_elem?-lt (D.weights g.graph) (new_node dst) j (v.numbered dst j dst_node))
              (λ e x. false≢true (sym missing ∙ (contains_edge_iff dec D V g i j kind).1 (e, x)));
        edges = λ x y k.
            Bool_ext (has_edge dec D V r x y k)
              (is_asked dec src dst kind x y k || has_edge dec D V g x y k)
              (λ t. grown-IsEdge x y k ((has_edge_iff dec D V r x y k).0 t))
              (λ t. (has_edge_iff dec D V r x y k).1 (IsEdge-grown x y k t));
        kept = λ p n found. ap (λ m. HashMap.get dec m p) l.values ∙ found;
        grown =
            ap length (ap D.ends l.graph ∙ ends)
            ∙ one_more (length-append (D.ends g.graph) ((i, j) ∷ []))
            ∙ ap (λ t. if t then length (D.ends g.graph) else suc (length (D.ends g.graph)))
                (sym (has_edge-known dec D V g src dst kind i j src_node dst_node ∙ missing));
      }
        where
          one_more : {n m : ℕ} → n ≡ m + 1 → n ≡ suc m
          one_more h = omega arith
