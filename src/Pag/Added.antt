-- ===== src/Pag/Added.antt =====
-- `add_edge` as a whole: the seven functions, the two nodes, and the edge between them.
use rupta_fork.Base.{
  ℕ, suc, true, ◌≡◌, inl, inr, refl, sym, ap, ◌∙◌, ◌||◌, Option, none, some, if◌then◌else◌, length,
  Bool-cases, get_elem?-lt,
}
use mathlib.Core.Option
use rupta_fork.Base.HashMap
use rupta_fork.Petgraph.{DiGraph}
use rupta_fork.ChunkedQueue.{ArrayVec, chunk_cap}
use rupta_fork.Pag.{
  Pag, PagNode, PagEdge, PagEdgeEnum, addr_edge, direct_edge, load_edge, store_edge, gep_edge,
  cast_edge, offset_edge, new_node,
}
use rupta_fork.Pag.Kinds.{EdgeClass, class_of}
use rupta_fork.Pag.Ops.{
  get_or_insert_node, contains_edge, has_edge, link, add_edge_of, add_addr_edge, add_direct_edge,
  add_load_edge, add_store_edge, add_gep_edge, add_cast_edge, add_offset_edge, add_edge,
}
use rupta_fork.Pag.Valid.{edge_of, IsValid, has_edge-known}
use rupta_fork.Pag.Nodes.{get_or_insert_node-add_node}
use rupta_fork.Pag.Links.{link-Linked}
use rupta_fork.Pag.AddEdge.{is_asked, AddsEdge, asked_there, fresh-AddsEdge}

module _ {P Fp : Type 0} (dec : Discrete P) (D : DiGraph (PagNode P) PagEdge)
    (V : ArrayVec ℕ chunk_cap) where
  -- Whatever the kind, the body is the one the seven functions share.
  dispatch :
      (g : Pag P D.Graph V.Vec Fp) (src dst : P) (kind : PagEdgeEnum)
      → add_edge dec D V g src dst kind ≡ add_edge_of dec D V (class_of kind) g src dst kind
  unfolding add_edge add_addr_edge add_direct_edge add_load_edge add_store_edge add_gep_edge
      add_cast_edge add_offset_edge
  dispatch g src dst addr_edge = refl
  dispatch g src dst direct_edge = refl
  dispatch g src dst (load_edge _) = refl
  dispatch g src dst (store_edge _) = refl
  dispatch g src dst (gep_edge _) = refl
  dispatch g src dst cast_edge = refl
  dispatch g src dst offset_edge = refl

  -- The part of the body after the two nodes are there.
  join :
      EdgeClass
      → Pag P D.Graph V.Vec Fp
      → ℕ
      → ℕ
      → PagEdgeEnum
      → Option (Option ℕ × Pag P D.Graph V.Vec Fp)
  join c g src_id dst_id kind =
      if contains_edge dec D V g src_id dst_id kind
      then some (none, g)
      else Option.bind (D.add_edge g.graph src_id dst_id (record { kind = kind }))
          (λ (added : D.Graph × ℕ).
            Option.map (λ (r : Pag P D.Graph V.Vec Fp). (some added.1, r))
              (link dec D V c (record g { graph = added.0 }) src_id dst_id added.1))

  body :
      (c : EdgeClass) (g m n : Pag P D.Graph V.Vec Fp) (src dst : P) (kind : PagEdgeEnum) (i j : ℕ)
      → get_or_insert_node dec D V g src ≡ (i, m)
      → get_or_insert_node dec D V m dst ≡ (j, n)
      → add_edge_of dec D V c g src dst kind ≡ join c n i j kind
  unfolding add_edge_of join
  body c g m n src dst kind i j p q = rw (p, add_edge_of) (rw q refl)

  -- An edge that is there: nothing is done.
  pub add_edge_of-there :
      (c : EdgeClass) (g : Pag P D.Graph V.Vec Fp) (src dst : P) (kind : PagEdgeEnum) (i j : ℕ)
      → HashMap.get dec g.values src ≡ some i
      → HashMap.get dec g.values dst ≡ some j
      → contains_edge dec D V g i j kind ≡ true
      → add_edge_of dec D V c g src dst kind ≡ some (none, g)
  unfolding join get_or_insert_node
  add_edge_of-there c g src dst kind i j hi hj h =
      body c g g g src dst kind i j (rw (hi, get_or_insert_node) refl)
        (rw (hj, get_or_insert_node) refl)
      ∙ rw (h, join) refl

  module _ (g : Pag P D.Graph V.Vec Fp) (v : IsValid dec D V g) (src dst : P)
      (kind : PagEdgeEnum) where
    joined :
        (i j : ℕ)
        → HashMap.get dec g.values src ≡ some i
        → HashMap.get dec g.values dst ≡ some j
        → (r : Pag P D.Graph V.Vec Fp) × (join (class_of kind) g i j kind
            ≡ some (
              if has_edge dec D V g src dst kind then none else some (length (D.ends g.graph)),
              r,
            ))
          × AddsEdge dec D V g src dst kind r
    unfolding join Option.bind new_node
    joined i j hi hj =
        let same = has_edge-known dec D V g src dst kind i j hi hj in
        elim (Bool-cases (contains_edge dec D V g i j kind)) [
          | inl there ↦ (
            g,
            rw (there, join) (rw (same ∙ there) refl),
            record {
              valid = v;
              edges = λ x y k. asked_there dec D V g src dst kind x y k (same ∙ there);
              kept = λ p n found. found;
              grown =
                  ap (λ t. if t then length (D.ends g.graph) else suc (length (D.ends g.graph)))
                    (sym (same ∙ there));
            },
          )
          | inr missing ↦
              let (h, added, weights, ends) =
                D.add_edge_lem g.graph i j (edge_of kind)
                  (get_elem?-lt (D.weights g.graph) (new_node src) i (v.numbered src i hi))
                  (get_elem?-lt (D.weights g.graph) (new_node dst) j (v.numbered dst j hj)) in
              let labels =
                D.add_edge-labels g.graph h i j (length (D.ends g.graph)) (edge_of kind) added in
              let (r, done, l) =
                link-Linked dec D V (record g { graph = h }) v.queue i j (length (D.ends g.graph))
                  (class_of kind) in
              (
                r,
                rw (missing, join) (rw (same ∙ missing) (rw added (rw done refl))),
                fresh-AddsEdge dec D V g src dst kind v i j hi hj h r ends labels weights l missing,
              )
        ]

  module _ (g : Pag P D.Graph V.Vec Fp) (v : IsValid dec D V g) (src dst : P)
      (kind : PagEdgeEnum) where
    -- In a valid pointer assignment graph `add_edge`, for an edge of any of the seven
    -- kinds, does not panic and answers the number of the new edge, or none if there was
    -- such an edge. The graph stays valid: the fourteen maps and the queue hold exactly the
    -- edges of their kinds. It has that edge and the edges it had, and no other, and every
    -- path keeps its node.
    pub add_edge-AddsEdge :
        (r : Pag P D.Graph V.Vec Fp) × (add_edge dec D V g src dst kind
          ≡ some
              (if has_edge dec D V g src dst kind then none else some (length (D.ends g.graph)), r))
        × AddsEdge dec D V g src dst kind r
    add_edge-AddsEdge =
        let (m, i, _, p, a) = get_or_insert_node-add_node dec D V g v src in
        let (n, j, _, q, b) = get_or_insert_node-add_node dec D V m a.valid dst in
        let same : (x y : P) (k : PagEdgeEnum)
            → has_edge dec D V n x y k ≡ has_edge dec D V g x y k =
          λ x y k. b.edges x y k ∙ a.edges x y k in
        let (r, run, s) = joined n b.valid src dst kind i j (b.kept src i a.stands) b.stands in
        (
          r,
          dispatch g src dst kind
              ∙ body (class_of kind) g m n src dst kind i j p q
              ∙ run
              ∙ ap (λ t. some (if t then none else some (length (D.ends n.graph)), r))
                  (same src dst kind)
              ∙ ap
                  (λ t. some (if has_edge dec D V g src dst kind then none else some (length t), r))
                  (b.same_ends ∙ a.same_ends),
          record {
            valid = s.valid;
            edges = λ x y k.
                s.edges x y k ∙ ap (λ t. is_asked dec src dst kind x y k || t) (same x y k);
            kept = λ x e found. s.kept x e (b.kept x e (a.kept x e found));
            grown =
                s.grown
                ∙ ap (λ t. if t then length (D.ends n.graph) else suc (length (D.ends n.graph)))
                    (same src dst kind)
                ∙ ap (λ t. if has_edge dec D V g src dst kind then length t else suc (length t))
                    (b.same_ends ∙ a.same_ends);
          },
        )
