-- ===== src/Pag/Valid.antt =====
-- The invariant of the pointer assignment graph, and its edges as a relation on paths.
use rupta_fork.Base.{
  ℕ, ◌<◌, ◌≡◌, ◌↔◌, inl, inr, refl, sym, ap, ◌∙◌, List, [], ◌∷◌, true, some, length, get_elem?, has,
  arith, ℕ_discrete, Option-cases,
}
use mathlib.Core.Bool.{false≢true}
use rupta_fork.Base.HashMap
use rupta_fork.Petgraph.{DiGraph}
use rupta_fork.ChunkedQueue.{ArrayVec, chunk_cap}
use rupta_fork.ChunkedQueue.Chain.{contents}
use rupta_fork.ChunkedQueue.Push
use rupta_fork.Pag.{Pag, PagNode, PagEdge, PagEdgeEnum, PagEdgeEnum-discrete, new_node}
use rupta_fork.Pag.Kinds.{EdgeClass, addr, class_of, edges_at, out_of, in_of}
use rupta_fork.Pag.Ops.{any_kind, contains_edge, has_edge}

-- The edge with that kind.
abbrev pub edge_of : PagEdgeEnum → PagEdge
edge_of kind = record { kind = kind }

module _ {P : Type 0} (D : DiGraph (PagNode P) PagEdge) where
  -- Edge `e` of the graph leads from node `a` to node `b` and is of the kind.
  pub record Leads (g : D.Graph) (e a b : ℕ) (kind : PagEdgeEnum) : Type 0 where
    pub between : get_elem? (D.ends g) e ≡ some (a, b)
    pub labelled : get_elem? (D.labels g) e ≡ some (edge_of kind)

  any_kind-found :
      (g : D.Graph) (es : List ℕ) (kind : PagEdgeEnum)
      → any_kind D g es kind ≡ true
      → (e : ℕ) × (has es e ≡ true) × (get_elem? (D.labels g) e ≡ some (edge_of kind))
  unfolding any_kind
  any_kind-found g [] kind h = absurd (false≢true h)
  any_kind-found g (e ∷ es) kind h = elim (Option-cases (D.edge_weight g e)) [
    | inl missing ↦
        let (d, m, l) = any_kind-found g es kind (ground (arith, h, missing)) in
        (d, ground (arith, m), l)
    | inr (edge, found) ↦ elim (PagEdgeEnum-discrete edge.kind kind) [
      | yes same ↦ (
        e,
        ground arith,
        sym (D.edge_weight-labels g e) ∙ found ∙ ap (λ k. some (edge_of k)) same,
      )
      | no other ↦
          let (d, m, l) = any_kind-found g es kind (ground (arith, h, found)) in
          (d, ground (arith, m), l)
    ]
  ]

  found-any_kind :
      (g : D.Graph) (es : List ℕ) (kind : PagEdgeEnum) (e : ℕ)
      → has es e ≡ true
      → get_elem? (D.labels g) e ≡ some (edge_of kind)
      → any_kind D g es kind ≡ true
  unfolding any_kind
  found-any_kind g [] kind e m l = absurd (false≢true m)
  found-any_kind g (d ∷ es) kind e m l = elim (ℕ_discrete d e) [
    | yes same ↦
        let there : D.edge_weight g d ≡ some (edge_of kind) =
          ap (D.edge_weight g) same ∙ D.edge_weight-labels g e ∙ l in
        rw (there, any_kind) (ground arith)
    | no other ↦ let rest = found-any_kind g es kind e (ground (arith, m)) l in ground (arith, rest)
  ]

module _ {P Fp : Type 0} (dec : Discrete P) (D : DiGraph (PagNode P) PagEdge)
    (V : ArrayVec ℕ chunk_cap) where
  pub contains_edge_iff :
      (g : Pag P D.Graph V.Vec Fp) (a b : ℕ) (kind : PagEdgeEnum)
      → (contains_edge dec D V g a b kind ≡ true) ↔ ((e : ℕ) × Leads D g.graph e a b kind)
  unfolding contains_edge
  contains_edge_iff g a b kind = (
    (λ h.
        let (e, m, l) = any_kind-found D g.graph (D.edges_connecting g.graph a b) kind h in
        (e, record { between = (D.edges_connecting-ends g.graph a b e).0 m; labelled = l })),
    (λ h.
        found-any_kind D g.graph (D.edges_connecting g.graph a b) kind h.0
          ((D.edges_connecting-ends g.graph a b h.0).1 h.1.between) h.1.labelled),
  )

  -- The graph has an edge of the kind between the nodes of the two paths.
  pub record IsEdge (g : Pag P D.Graph V.Vec Fp) (src dst : P) (kind : PagEdgeEnum) : Type 0 where
    pub src_id : ℕ
    pub dst_id : ℕ
    pub src_node : HashMap.get dec g.values src ≡ some src_id
    pub dst_node : HashMap.get dec g.values dst ≡ some dst_id
    pub edge_id : ℕ
    pub leads : Leads D g.graph edge_id src_id dst_id kind

  pub has_edge-known :
      (g : Pag P D.Graph V.Vec Fp) (src dst : P) (kind : PagEdgeEnum) (i j : ℕ)
      → HashMap.get dec g.values src ≡ some i
      → HashMap.get dec g.values dst ≡ some j
      → has_edge dec D V g src dst kind ≡ contains_edge dec D V g i j kind
  unfolding has_edge
  has_edge-known g src dst kind i j hi hj = rw (hi, has_edge) (rw hj refl)

  pub has_edge_iff :
      (g : Pag P D.Graph V.Vec Fp) (src dst : P) (kind : PagEdgeEnum)
      → (has_edge dec D V g src dst kind ≡ true) ↔ IsEdge g src dst kind
  unfolding has_edge
  has_edge_iff g src dst kind = (
    (λ h. elim (Option-cases (HashMap.get dec g.values src)) [
      | inl missing ↦ absurd (false≢true (sym (rw (missing, has_edge) refl) ∙ h))
      | inr (i, hi) ↦ elim (Option-cases (HashMap.get dec g.values dst)) [
        | inl missing ↦ absurd (false≢true (sym (rw (hi, has_edge) (rw missing refl)) ∙ h))
        | inr (j, hj) ↦
            let (e, l) =
              (contains_edge_iff g i j kind).0
                (sym (has_edge-known g src dst kind i j hi hj) ∙ h) in
            record { src_id = i; dst_id = j; src_node = hi; dst_node = hj; edge_id = e; leads = l }
      ]
    ]),
    (λ x.
        has_edge-known g src dst kind x.src_id x.dst_id x.src_node x.dst_node
        ∙ (contains_edge_iff g x.src_id x.dst_id kind).1 (x.edge_id, x.leads)),
  )

  -- An edge of the class out of the node, and into it.
  abbrev pub Leaves : Pag P D.Graph V.Vec Fp → EdgeClass → ℕ → ℕ → Type 0
  Leaves g c n e = (b : ℕ) × (kind : PagEdgeEnum) × Leads D g.graph e n b kind × (class_of kind ≡ c)

  abbrev pub Enters : Pag P D.Graph V.Vec Fp → EdgeClass → ℕ → ℕ → Type 0
  Enters g c n e = (a : ℕ) × (kind : PagEdgeEnum) × Leads D g.graph e a n kind × (class_of kind ≡ c)

  -- Paths and nodes correspond, no edge stands twice, each of the fourteen maps has exactly the
  -- edges of its kind at the node, and the queue holds exactly the address edges.
  pub record IsValid (g : Pag P D.Graph V.Vec Fp) : Type 0 where
    pub numbered :
        (p : P) (i : ℕ)
        → HashMap.get dec g.values p ≡ some i
        → get_elem? (D.weights g.graph) i ≡ some (new_node p)
    pub known :
        (p : P) (i : ℕ)
        → get_elem? (D.weights g.graph) i ≡ some (new_node p)
        → HashMap.get dec g.values p ≡ some i
    pub in_range :
        (e a b : ℕ)
        → get_elem? (D.ends g.graph) e ≡ some (a, b)
        → a < length (D.weights g.graph) × b < length (D.weights g.graph)
    pub once :
        (d e a b : ℕ) (kind : PagEdgeEnum)
        → Leads D g.graph d a b kind
        → Leads D g.graph e a b kind
        → d ≡ e
    pub outgoing :
        (c : EdgeClass) (n e : ℕ) → (has (edges_at (out_of c g) n) e ≡ true) ↔ Leaves g c n e
    pub incoming :
        (c : EdgeClass) (n e : ℕ) → (has (edges_at (in_of c g) n) e ≡ true) ↔ Enters g c n e
    pub queue : Push.IsValid V g.addr_edges_queue
    pub queued :
        (e : ℕ)
        → (has (contents V g.addr_edges_queue.chunks) e ≡ true) ↔ ((n : ℕ) × Leaves g addr n e)
