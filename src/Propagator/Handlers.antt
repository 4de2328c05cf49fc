-- ===== src/Propagator/Handlers.antt =====
-- src/pta/propagator/propagator.rs: the loads, stores and field addresses of a node, which add edges
-- and nodes for each pointee. An edge of the wrong kind is the panic of `unreachable!`.
use rupta_fork.Base.{
  ℕ, ◌≡◌, inl, inr, refl, sym, ap, ◌∙◌, List, [], ◌∷◌, Bool, true, false, ◌||◌, Option, none, some,
  if◌then◌else◌, ℕ_discrete, Bool-cases,
}
use mathlib.Core.Option
use rupta_fork.Base.HashMap
use rupta_fork.Petgraph.{DiGraph}
use rupta_fork.ChunkedQueue.{ArrayVec, chunk_cap}
use rupta_fork.PtsSet.{PointsToSet}
use rupta_fork.PtData.DiffPtData
use rupta_fork.Pag.{
  Pag, PagNode, PagEdge, PagEdgeEnum, direct_edge, load_edge, store_edge, gep_edge,
}
use rupta_fork.MirPath.{ProjectionElems}
use rupta_fork.Pag.Ops
use rupta_fork.Pag.Valid.{IsValid, has_edge_iff, has_edge-known}
use rupta_fork.Pag.Kinds.{direct}
use rupta_fork.Pag.Added.{add_edge_of-there}
use rupta_fork.Pag.Direct.{PagPath}
use rupta_fork.Propagator.{Propagator, PtrTypes, EdgeFilter, propagate, add_pts, push_changed}

-- `let PAGEdgeEnum::LoadPAGEdge(load_proj) = ... else { unreachable!() }`, and for the others.
abbrev load_proj : PagEdgeEnum → Option ProjectionElems
load_proj (load_edge proj) = some proj
load_proj _ = none

abbrev store_proj : PagEdgeEnum → Option ProjectionElems
store_proj (store_edge proj) = some proj
store_proj _ = none

abbrev gep_proj : PagEdgeEnum → Option ProjectionElems
gep_proj (gep_edge proj) = some proj
gep_proj _ = none

module _ {P F Ty Fp S : Type 0} (dec : Discrete P) (D : DiGraph (PagNode P) PagEdge)
    (V : ArrayVec ℕ chunk_cap) (A : PagPath P F Ty) (T : PtrTypes Ty) (E : EdgeFilter P S)
    (Q : PointsToSet) where
  unfoldable pub add_direct_edge :
      Propagator P D.Graph V.Vec Fp Q.Set S
      → P
      → P
      → Option (Option ℕ × Propagator P D.Graph V.Vec Fp Q.Set S)
  add_direct_edge s src dst =
      if Ops.has_edge dec D V s.pag src dst direct_edge
      then some (none, s)
      else Option.map (λ (r : Option ℕ × Pag P D.Graph V.Vec Fp). (r.0, record s { pag = r.1 }))
          (Ops.add_direct_edge dec D V s.pag src dst)

  -- A direct edge for a load or a store: if it is new, everything flows over it.
  unfoldable pub connect_and_propagate :
      Propagator P D.Graph V.Vec Fp Q.Set S
      → ℕ
      → P
      → P
      → Option (Propagator P D.Graph V.Vec Fp Q.Set S)
  unfolding add_direct_edge
  connect_and_propagate s from_edge src_path dst_path =
      Option.bind (add_direct_edge s src_path dst_path)
        (λ (r : Option ℕ × Propagator P D.Graph V.Vec Fp Q.Set S). elim r.0 [
          | none ↦ some r.1
          | some edge_id ↦
              propagate dec D V A T E Q
                (record r.1 {
                  stack_filter = E.new_edge_from_store_or_load r.1.stack_filter edge_id from_edge;
                })
                edge_id false
        ])

  unfoldable pub load_each :
      Propagator P D.Graph V.Vec Fp Q.Set S
      → ℕ
      → ProjectionElems
      → P
      → List ℕ
      → Option (Propagator P D.Graph V.Vec Fp Q.Set S)
  unfolding connect_and_propagate
  load_each s edge proj dst_path [] = some s
  load_each s edge proj dst_path (pointee ∷ base_pts) =
      Option.bind (Ops.node_path dec D V s.pag pointee) (λ (pointee_path : P).
        Option.bind (E.stack_filter_pred s.stack_filter edge pointee_path) (λ filtered.
          Option.bind
            (if filtered
              then some s
              else connect_and_propagate s edge (A.append_projection pointee_path proj) dst_path)
            (λ (r : Propagator P D.Graph V.Vec Fp Q.Set S).
              load_each r edge proj dst_path base_pts)))

  unfoldable pub process_load :
      Propagator P D.Graph V.Vec Fp Q.Set S
      → ℕ
      → List ℕ
      → Option (Propagator P D.Graph V.Vec Fp Q.Set S)
  unfolding load_each
  process_load s edge_id base_pts =
      Option.bind (D.edge_endpoints s.pag.graph edge_id) (λ (ends : ℕ × ℕ).
        Option.bind (Ops.get_edge dec D V s.pag edge_id) (λ (edge : PagEdge).
          Option.bind (load_proj edge.kind) (λ (proj : ProjectionElems).
            Option.bind (Ops.node_path dec D V s.pag ends.1)
              (λ (dst_path : P). load_each s edge_id proj dst_path base_pts))))

  unfoldable pub store_each :
      Propagator P D.Graph V.Vec Fp Q.Set S
      → ℕ
      → ProjectionElems
      → P
      → List ℕ
      → Option (Propagator P D.Graph V.Vec Fp Q.Set S)
  unfolding connect_and_propagate
  store_each s edge proj src_path [] = some s
  store_each s edge proj src_path (pointee ∷ base_pts) =
      Option.bind (Ops.node_path dec D V s.pag pointee) (λ (pointee_path : P).
        Option.bind (E.stack_filter_pred s.stack_filter edge pointee_path) (λ filtered.
          Option.bind
            (if filtered
              then some s
              else connect_and_propagate s edge src_path (A.append_projection pointee_path proj))
            (λ (r : Propagator P D.Graph V.Vec Fp Q.Set S).
              store_each r edge proj src_path base_pts)))

  unfoldable pub process_store :
      Propagator P D.Graph V.Vec Fp Q.Set S
      → ℕ
      → List ℕ
      → Option (Propagator P D.Graph V.Vec Fp Q.Set S)
  unfolding store_each
  process_store s edge_id base_pts =
      Option.bind (D.edge_endpoints s.pag.graph edge_id) (λ (ends : ℕ × ℕ).
        Option.bind (Ops.get_edge dec D V s.pag edge_id) (λ (edge : PagEdge).
          Option.bind (store_proj edge.kind) (λ (proj : ProjectionElems).
            Option.bind (Ops.node_path dec D V s.pag ends.0)
              (λ (src_path : P). store_each s edge_id proj src_path base_pts))))

  unfoldable pub gep_pointee :
      Propagator P D.Graph V.Vec Fp Q.Set S
      → Bool
      → ℕ
      → ProjectionElems
      → ℕ
      → ℕ
      → P
      → Option (Propagator P D.Graph V.Vec Fp Q.Set S × Bool)
  unfolding add_pts
  gep_pointee s changed edge proj dst pointee pointee_path =
      Option.map
        (λ filtered.
          if filtered
          then (
            record s { stack_filter = E.collect_filtered_pts s.stack_filter edge pointee },
            changed,
          )
          else let (src_id, pag) =
              Ops.get_or_insert_node dec D V s.pag (A.append_projection pointee_path proj) in
            let (r, added) = add_pts dec D V A T E Q (record s { pag = pag }) dst src_id in
            (r, changed || added))
        (E.stack_filter_pred s.stack_filter edge pointee_path)

  unfoldable pub gep_each :
      Propagator P D.Graph V.Vec Fp Q.Set S
      → Bool
      → ℕ
      → ProjectionElems
      → ℕ
      → List ℕ
      → Option (Propagator P D.Graph V.Vec Fp Q.Set S × Bool)
  unfolding gep_pointee
  gep_each s changed edge proj dst [] = some (s, changed)
  gep_each s changed edge proj dst (pointee ∷ base_pts) =
      Option.bind (Ops.node_path dec D V s.pag pointee) (λ (pointee_path : P).
        Option.bind (gep_pointee s changed edge proj dst pointee pointee_path)
          (λ (r : Propagator P D.Graph V.Vec Fp Q.Set S × Bool).
            gep_each r.0 r.1 edge proj dst base_pts))

  unfoldable pub process_gep :
      Propagator P D.Graph V.Vec Fp Q.Set S
      → ℕ
      → List ℕ
      → Option (Propagator P D.Graph V.Vec Fp Q.Set S)
  unfolding gep_each push_changed
  process_gep s edge_id base_pts =
      Option.bind (D.edge_endpoints s.pag.graph edge_id) (λ (ends : ℕ × ℕ).
        Option.bind (Ops.get_edge dec D V s.pag edge_id) (λ (edge : PagEdge).
          Option.bind (gep_proj edge.kind) (λ (proj : ProjectionElems).
            Option.map
              (λ (r : Propagator P D.Graph V.Vec Fp Q.Set S × Bool).
                push_changed dec D V A T E Q r.0 r.1 ends.1)
              (gep_each s false edge_id proj ends.1 base_pts))))

  -- `for edge in &edges`, with what is done for each.
  unfoldable pub each_edge :
      (Propagator P D.Graph V.Vec Fp Q.Set S → ℕ → Option (Propagator P D.Graph V.Vec Fp Q.Set S))
      → Propagator P D.Graph V.Vec Fp Q.Set S
      → List ℕ
      → Option (Propagator P D.Graph V.Vec Fp Q.Set S)
  each_edge process s [] = some s
  each_edge process s (edge ∷ edges) =
      Option.bind (process s edge)
        (λ (r : Propagator P D.Graph V.Vec Fp Q.Set S). each_edge process r edges)

  unfoldable pub handle_load_and_store :
      Propagator P D.Graph V.Vec Fp Q.Set S → ℕ → Option (Propagator P D.Graph V.Vec Fp Q.Set S)
  unfolding each_edge process_load process_store
  handle_load_and_store s node_id =
      elim (DiffPtData.get_diff_pts Q ℕ_discrete s.pt_data node_id)
        as (λ _. Option (Propagator P D.Graph V.Vec Fp Q.Set S)) [
          | none ↦ some s
          | some diff_pts ↦
              Option.bind
                (each_edge (λ r edge. process_load r edge (Q.to_list diff_pts)) s
                  (HashMap.get_or_default ℕ_discrete s.pag.load_out_edges node_id []))
                (λ (r : Propagator P D.Graph V.Vec Fp Q.Set S).
                  each_edge (λ t edge. process_store t edge (Q.to_list diff_pts)) r
                    (HashMap.get_or_default ℕ_discrete r.pag.store_in_edges node_id []))
        ]

  unfoldable pub handle_gep :
      Propagator P D.Graph V.Vec Fp Q.Set S → ℕ → Option (Propagator P D.Graph V.Vec Fp Q.Set S)
  unfolding each_edge process_gep
  handle_gep s node_id =
      elim (HashMap.get ℕ_discrete s.pag.gep_out_edges node_id)
        as (λ _. Option (Propagator P D.Graph V.Vec Fp Q.Set S)) [
          | none ↦ some s
          | some gep_out_edges ↦
              elim (DiffPtData.get_diff_pts Q ℕ_discrete s.pt_data node_id)
                as (λ _. Option (Propagator P D.Graph V.Vec Fp Q.Set S)) [
                  | none ↦ some s
                  | some diff_pts ↦
                      each_edge (λ r edge. process_gep r edge (Q.to_list diff_pts)) s gep_out_edges
                ]
        ]

  module _ (s : Propagator P D.Graph V.Vec Fp Q.Set S) (v : IsValid dec D V s.pag)
      (src dst : P) where
    -- In a valid pointer assignment graph the solver's `add_direct_edge`, which first asks
    -- `has_edge`, does and answers what the graph's own `add_direct_edge` does without that
    -- test: its guard is redundant.
    pub add_direct_edge-unguarded :
        add_direct_edge s src dst
        ≡ Option.map
            (λ (r : Option ℕ × Pag P D.Graph V.Vec Fp). (r.0, record s { pag = r.1 }))
            (Ops.add_direct_edge dec D V s.pag src dst)
    unfolding add_direct_edge Ops.add_direct_edge
    add_direct_edge-unguarded = elim (Bool-cases (Ops.has_edge dec D V s.pag src dst direct_edge)) [
      | inr missing ↦ rw (missing, add_direct_edge) refl
      | inl there ↦
          let e = (has_edge_iff dec D V s.pag src dst direct_edge).0 there in
          rw (there, add_direct_edge)
            (sym (
              ap
                (Option.map
                  (λ (r : Option ℕ × Pag P D.Graph V.Vec Fp). (r.0, record s { pag = r.1 })))
                (found e.src_id e.dst_id e.src_node e.dst_node (
                  sym (
                    has_edge-known dec D V s.pag src dst direct_edge e.src_id e.dst_id e.src_node
                      e.dst_node)
                  ∙ there))))
    ]
      where
        found :
            (i j : ℕ)
            → HashMap.get dec s.pag.values src ≡ some i
            → HashMap.get dec s.pag.values dst ≡ some j
            → Ops.contains_edge dec D V s.pag i j direct_edge ≡ true
            → Ops.add_direct_edge dec D V s.pag src dst ≡ some (none, s.pag)
        found i j hi hj h = add_edge_of-there dec D V direct s.pag src dst direct_edge i j hi hj h
