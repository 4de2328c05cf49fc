-- ===== src/Pag/Nodes.antt =====
-- The nodes of the pointer assignment graph: one for each path.
use rupta_fork.Base.{
  ℕ, suc, ◌<◌, ◌≡◌, inl, inr, refl, sym, ap, subst, ◌∙◌, [], ◌∷◌, true, none, some, length,
  get_elem?, has, arith, Option-cases, Bool_ext, length-append, get_elem?-append_left,
}
use rupta_fork.Base.HashMap
use rupta_fork.Base.Numbering.{Numbers, Numbers-insert}
use mathlib.Core.Option.{none-ne-some}
use rupta_fork.Petgraph.{DiGraph}
use rupta_fork.ChunkedQueue.{ArrayVec, chunk_cap}
use rupta_fork.Pag.{Pag, PagNode, PagEdge, PagEdgeEnum, new_node}
use rupta_fork.Pag.Kinds.{EdgeClass, addr, out_of, in_of, edges_at}
use rupta_fork.Pag.Ops.{add_node, get_or_insert_node, has_edge}
use rupta_fork.Pag.Valid.{Leads, IsValid, has_edge_iff}

module _ {P : Type 0} (D : DiGraph (PagNode P) PagEdge) where
  -- The same edges.
  pub Leads-same :
      (g h : D.Graph) (e a b : ℕ) (kind : PagEdgeEnum)
      → D.ends h ≡ D.ends g
      → D.labels h ≡ D.labels g
      → Leads D g e a b kind
      → Leads D h e a b kind
  Leads-same g h e a b kind ends labels l = record {
    between = ap (λ xs. get_elem? xs e) ends ∙ l.between;
    labelled = ap (λ xs. get_elem? xs e) labels ∙ l.labelled;
  }

module _ {P Fp : Type 0} (dec : Discrete P) (D : DiGraph (PagNode P) PagEdge)
    (V : ArrayVec ℕ chunk_cap) where
  -- What a node for `p` is to be: the graph as it was or one node larger.
  pub record Noded (g r : Pag P D.Graph V.Vec Fp) (p : P) (i : ℕ) : Type 0 where
    pub valid : IsValid dec D V r
    pub stands : HashMap.get dec r.values p ≡ some i
    pub kept :
        (q : P) (j : ℕ) → HashMap.get dec g.values q ≡ some j → HashMap.get dec r.values q ≡ some j
    pub same_ends : D.ends r.graph ≡ D.ends g.graph
    pub same_labels : D.labels r.graph ≡ D.labels g.graph
    pub edges :
        (x y : P) (kind : PagEdgeEnum) → has_edge dec D V r x y kind ≡ has_edge dec D V g x y kind

  module _ (g : Pag P D.Graph V.Vec Fp) (v : IsValid dec D V g) (p : P) where
    abbrev noded : Pag P D.Graph V.Vec Fp
    noded = record g {
      graph = (D.add_node g.graph (new_node p)).0;
      values = HashMap.insert dec g.values p (D.add_node g.graph (new_node p)).1;
    }

    noded_out : (c : EdgeClass) → out_of c noded ≡ out_of c g
    noded_out addr = refl
    noded_out _ = refl

    noded_in : (c : EdgeClass) → in_of c noded ≡ in_of c g
    noded_in addr = refl
    noded_in _ = refl

    forth :
        (e a b : ℕ) (kind : PagEdgeEnum)
        → Leads D g.graph e a b kind
        → Leads D noded.graph e a b kind
    forth e a b kind =
        Leads-same D g.graph noded.graph e a b kind (D.add_node-ends g.graph (new_node p))
          (D.add_node-labels g.graph (new_node p))

    back :
        (e a b : ℕ) (kind : PagEdgeEnum)
        → Leads D noded.graph e a b kind
        → Leads D g.graph e a b kind
    back e a b kind =
        Leads-same D noded.graph g.graph e a b kind (sym (D.add_node-ends g.graph (new_node p)))
          (sym (D.add_node-labels g.graph (new_node p)))

    noded-IsValid : HashMap.get dec g.values p ≡ none → IsValid dec D V noded
    unfolding new_node
    noded-IsValid missing =
        let ws = D.add_node-weights g.graph (new_node p) in
        let n : Numbers dec new_node noded.values (D.weights noded.graph) =
          Numbers-insert dec new_node g.values (D.weights g.graph) (D.weights noded.graph) p
            (D.add_node g.graph (new_node p)).1 (λ a b e. ap (λ (x : PagNode P). x.path) e)
            (record { numbered = v.numbered; known = v.known }) missing
            (D.add_node-number g.graph (new_node p)) ws in
        record {
          numbered = n.numbered;
          known = n.known;
          in_range = λ e a b found.
              let (ra, rb) =
                v.in_range e a b (
                  ap (λ xs. get_elem? xs e) (sym (D.add_node-ends g.graph (new_node p))) ∙ found) in
              let longer : length (D.weights noded.graph) ≡ suc (length (D.weights g.graph)) =
                omega (arith, ap length ws, length-append (D.weights g.graph) (new_node p ∷ [])) in
              (omega arith, omega arith);
          once = λ d e a b kind l m. v.once d e a b kind (back d a b kind l) (back e a b kind m);
          outgoing = λ c k e. (
            λ h.
                let (b, kind, l, q) =
                  (v.outgoing c k e).0 (subst (λ m. has (edges_at m k) e ≡ true) (noded_out c) h) in
                (b, kind, forth e k b kind l, q),
            λ h.
                subst (λ m. has (edges_at m k) e ≡ true) (sym (noded_out c))
                  ((v.outgoing c k e).1 (h.0, h.1, back e k h.0 h.1 h.2, h.3)),
          );
          incoming = λ c k e. (
            λ h.
                let (b, kind, l, q) =
                  (v.incoming c k e).0 (subst (λ m. has (edges_at m k) e ≡ true) (noded_in c) h) in
                (b, kind, forth e b k kind l, q),
            λ h.
                subst (λ m. has (edges_at m k) e ≡ true) (sym (noded_in c))
                  ((v.incoming c k e).1 (h.0, h.1, back e h.0 k h.1 h.2, h.3)),
          );
          queue = v.queue;
          queued = λ e. (
            λ h.
                let (k, (b, kind, l, q)) = (v.queued e).0 h in
                (k, (b, kind, forth e k b kind l, q)),
            λ h.
                let (k, (b, kind, l, q)) = h in (v.queued e).1 (k, (b, kind, back e k b kind l, q)),
          );
        }

    noded-kept :
        HashMap.get dec g.values p ≡ none
        → (q : P) (j : ℕ) → HashMap.get dec g.values q ≡ some j
        → HashMap.get dec noded.values q ≡ some j
    noded-kept missing q j found =
        HashMap.get-insert_ne dec g.values p q (D.add_node g.graph (new_node p)).1
          (λ e. none-ne-some j (sym missing ∙ ap (HashMap.get dec g.values) e ∙ found))
        ∙ found

    -- A node that an old edge has was there before.
    noded-old :
        IsValid dec D V noded
        → (q : P) (j : ℕ) → HashMap.get dec noded.values q ≡ some j
        → j < length (D.weights g.graph)
        → HashMap.get dec g.values q ≡ some j
    noded-old w q j found lt = v.known q j (
        sym (get_elem?-append_left (D.weights g.graph) (new_node p ∷ []) j lt)
        ∙ ap (λ xs. get_elem? xs j) (sym (D.add_node-weights g.graph (new_node p)))
        ∙ w.numbered q j found)

    noded-edges :
        HashMap.get dec g.values p ≡ none
        → IsValid dec D V noded
        → (x y : P) (kind : PagEdgeEnum)
        → has_edge dec D V noded x y kind ≡ has_edge dec D V g x y kind
    noded-edges missing w x y kind =
        Bool_ext (has_edge dec D V noded x y kind) (has_edge dec D V g x y kind)
          (λ h.
            let e = (has_edge_iff dec D V noded x y kind).0 h in
            let l = back e.edge_id e.src_id e.dst_id kind e.leads in
            let (ra, rb) = v.in_range e.edge_id e.src_id e.dst_id l.between in
            (has_edge_iff dec D V g x y kind).1 (record {
              src_id = e.src_id;
              dst_id = e.dst_id;
              src_node = noded-old w x e.src_id e.src_node ra;
              dst_node = noded-old w y e.dst_id e.dst_node rb;
              edge_id = e.edge_id;
              leads = l;
            }))
          (λ h.
            let e = (has_edge_iff dec D V g x y kind).0 h in
            (has_edge_iff dec D V noded x y kind).1 (record {
              src_id = e.src_id;
              dst_id = e.dst_id;
              src_node = noded-kept missing x e.src_id e.src_node;
              dst_node = noded-kept missing y e.dst_id e.dst_node;
              edge_id = e.edge_id;
              leads = forth e.edge_id e.src_id e.dst_id kind e.leads;
            }))

    -- In a valid pointer assignment graph `add_node` and `get_or_insert_node` of a path
    -- leave the same graph, in which the second's answer is the path's node: the graph
    -- stays valid, every path keeps its node, and no edge comes or goes.
    pub get_or_insert_node-add_node :
        (r : Pag P D.Graph V.Vec Fp) × (i : ℕ) × (add_node dec D V g p ≡ r)
        × (get_or_insert_node dec D V g p ≡ (i, r))
        × Noded g r p i
    unfolding add_node get_or_insert_node
    get_or_insert_node-add_node = elim (Option-cases (HashMap.get dec g.values p)) [
      | inl missing ↦
          let w = noded-IsValid missing in
          (
            noded,
            (D.add_node g.graph (new_node p)).1,
            rw (missing, add_node) refl,
            rw (missing, get_or_insert_node) refl,
            record {
              valid = w;
              stands = HashMap.get-insert_self dec g.values p (D.add_node g.graph (new_node p)).1;
              kept = noded-kept missing;
              same_ends = D.add_node-ends g.graph (new_node p);
              same_labels = D.add_node-labels g.graph (new_node p);
              edges = noded-edges missing w;
            },
          )
      | inr (i, found) ↦ (
        g,
        i,
        rw (found, add_node) refl,
        rw (found, get_or_insert_node) refl,
        record {
          valid = v;
          stands = found;
          kept = λ q j h. h;
          same_ends = refl;
          same_labels = refl;
          edges = λ x y kind. refl;
        },
      )
    ]
