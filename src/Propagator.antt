-- ===== src/Propagator.antt =====
-- src/pta/propagator/propagator.rs: how points-to data flows over the edges of the pointer assignment
-- graph. What is asked of types is the parameter `PtrTypes`, and the stack filter with the analysis
-- options is `EdgeFilter`; a worklist is its list, and `none` is a panic. While a handler runs, Rust
-- takes the node's edges out of their map and puts them back: nothing that is called there reads or
-- writes that map. Casts and the calls that a node resolves are not modelled.
pub mod Any
pub mod Filters
pub mod Stops
pub mod Passing
pub mod Concluded
pub mod Propagate
pub mod Handlers
pub mod Flushed
use rupta_fork.Base.{
  ℕ, ◌≡◌, List, [], ◌∷◌, ◌++◌, Bool, true, false, not, ◌&&◌, ◌||◌, Option, none, some,
  if◌then◌else◌, ℕ_discrete,
}
use mathlib.Core.Option
use rupta_fork.Base.HashMap
use rupta_fork.Petgraph.{DiGraph}
use rupta_fork.ChunkedQueue.{ArrayVec, chunk_cap}
use rupta_fork.PtsSet.{PointsToSet}
use rupta_fork.PtData.DiffPtData
use rupta_fork.PtData.DiffPtData.{DiffPtData}
use rupta_fork.MirPath.{ProjectionElems}
use rupta_fork.Pag.{
  Pag, PagNode, PagEdge, PagEdgeEnum, direct_edge, load_edge, store_edge, gep_edge,
}
use rupta_fork.Pag.Ops
use rupta_fork.Pag.Direct.{PagPath}

pub record PtrTypes (Ty : Type 0) : Type 0 where
  pub equivalent_ptr_types : Ty → Ty → Bool
  pub get_dereferenced_type : Ty → Ty
  pub is_trait : Ty → Bool
  pub equal_types : Ty → Ty → Bool

-- `stack_filter_pred`, where `none` is a panic of what it calls, `collect_filtered_pts` and
-- `new_edge_from_store_or_load`: what is collected does not change the test. `Filters` has them for
-- the stack filter.
pub record EdgeFilter (P S : Type 0) : Type 0 where
  pub stack_filter_pred : S → ℕ → P → Option Bool
  pub collect_filtered_pts : S → ℕ → ℕ → S
  pub new_edge_from_store_or_load : S → ℕ → ℕ → S
  pub stack_filter_pred-collect :
      (s : S) (e x edge : ℕ) (path : P)
      → stack_filter_pred (collect_filtered_pts s e x) edge path ≡ stack_filter_pred s edge path

pub record Propagator (P G V Fp Set S : Type 0) : Type 0 where
  pub pag : Pag P G V Fp
  pub pt_data : DiffPtData ℕ Set
  pub worklist : List ℕ
  pub stack_filter : S

-- The closure that `type_filter_pred` makes.
unfoldable pub type_filter_pred : {Ty : Type 0} → PtrTypes Ty → Ty → Ty → Ty → Bool
type_filter_pred T pointee_ty src_deref_type dst_deref_ty =
    T.is_trait src_deref_type
    && (not (T.is_trait dst_deref_ty) && not (T.equal_types pointee_ty dst_deref_ty))

module _ (Q : PointsToSet) where
  -- `if let Some(pts) = ... { for pointee in &pts.clone() { ... } }`
  abbrev pub pointees : Option Q.Set → List ℕ
  pointees none = []
  pointees (some pts) = Q.to_list pts

  abbrev pub is_there : Option Q.Set → Bool
  is_there none = false
  is_there (some pts) = true

module _ {P F Ty Fp S : Type 0} (dec : Discrete P) (D : DiGraph (PagNode P) PagEdge)
    (V : ArrayVec ℕ chunk_cap) (A : PagPath P F Ty) (T : PtrTypes Ty) (E : EdgeFilter P S)
    (Q : PointsToSet) where
  -- `if changed { self.worklist.push_back(dst) }`
  unfoldable pub push_changed :
      Propagator P D.Graph V.Vec Fp Q.Set S → Bool → ℕ → Propagator P D.Graph V.Vec Fp Q.Set S
  push_changed s changed dst = if changed then record s { worklist = s.worklist ++ dst ∷ [] } else s

  unfoldable pub node_path_and_ty : Propagator P D.Graph V.Vec Fp Q.Set S → ℕ → Option (P × Ty)
  node_path_and_ty s id =
      Option.map (λ path. (path, A.try_eval_path_type path)) (Ops.node_path dec D V s.pag id)

  unfoldable pub add_pts :
      Propagator P D.Graph V.Vec Fp Q.Set S → ℕ → ℕ → Propagator P D.Graph V.Vec Fp Q.Set S × Bool
  add_pts s pointer pointee =
      let (pt_data, changed) = DiffPtData.add_pts Q ℕ_discrete s.pt_data pointer pointee in
      (record s { pt_data = pt_data }, changed)

  -- One pointee, whose two paths have these dereferenced types.
  unfoldable pub pass_pointee :
      Propagator P D.Graph V.Vec Fp Q.Set S
      → Bool
      → ℕ
      → ℕ
      → Ty
      → Ty
      → ℕ
      → Option (Propagator P D.Graph V.Vec Fp Q.Set S × Bool)
  unfolding node_path_and_ty type_filter_pred add_pts
  pass_pointee s changed edge dst src_deref_type dst_deref_type pointee =
      Option.bind (node_path_and_ty s pointee) (λ (node : P × Ty).
        if type_filter_pred T node.1 src_deref_type dst_deref_type
        then some (s, changed)
        else Option.map
            (λ filtered.
              if filtered
              then (
                record s { stack_filter = E.collect_filtered_pts s.stack_filter edge pointee },
                changed,
              )
              else let (r, added) = add_pts s dst pointee in (r, changed || added))
            (E.stack_filter_pred s.stack_filter edge node.0))

  unfoldable pub pass_all :
      Propagator P D.Graph V.Vec Fp Q.Set S
      → Bool
      → ℕ
      → ℕ
      → Ty
      → Ty
      → List ℕ
      → Option (Propagator P D.Graph V.Vec Fp Q.Set S × Bool)
  unfolding pass_pointee
  pass_all s changed edge dst src_deref_type dst_deref_type [] = some (s, changed)
  pass_all s changed edge dst src_deref_type dst_deref_type (pointee ∷ pointees) =
      Option.bind (pass_pointee s changed edge dst src_deref_type dst_deref_type pointee)
        (λ (r : Propagator P D.Graph V.Vec Fp Q.Set S × Bool).
          pass_all r.0 r.1 edge dst src_deref_type dst_deref_type pointees)

  unfoldable pub propagate :
      Propagator P D.Graph V.Vec Fp Q.Set S
      → ℕ
      → Bool
      → Option (Propagator P D.Graph V.Vec Fp Q.Set S)
  unfolding node_path_and_ty pass_all push_changed
  propagate s edge propa_diff = Option.bind (D.edge_endpoints s.pag.graph edge) (λ (ends : ℕ × ℕ).
      if is_there Q (DiffPtData.get_propa_pts Q ℕ_discrete s.pt_data ends.0)
        || is_there Q (DiffPtData.get_diff_pts Q ℕ_discrete s.pt_data ends.0)
      then Option.bind (node_path_and_ty s ends.0) (λ (src : P × Ty).
        Option.bind (node_path_and_ty s ends.1) (λ (dst : P × Ty).
          if not (T.equivalent_ptr_types src.1 dst.1)
          then some s
          else Option.bind
              (pass_all s false edge ends.1 (T.get_dereferenced_type src.1)
                (T.get_dereferenced_type dst.1)
                (pointees Q (DiffPtData.get_diff_pts Q ℕ_discrete s.pt_data ends.0)))
              (λ (r : Propagator P D.Graph V.Vec Fp Q.Set S × Bool).
                Option.map
                  (λ (t : Propagator P D.Graph V.Vec Fp Q.Set S × Bool).
                    push_changed t.0 t.1 ends.1)
                  (if propa_diff
                    then some r
                    else pass_all r.0 r.1 edge ends.1 (T.get_dereferenced_type src.1)
                        (T.get_dereferenced_type dst.1)
                        (pointees Q (DiffPtData.get_propa_pts Q ℕ_discrete r.0.pt_data ends.0))))))
      else some s)

  unfoldable pub process_addr :
      Propagator P D.Graph V.Vec Fp Q.Set S → ℕ → Option (Propagator P D.Graph V.Vec Fp Q.Set S)
  unfolding add_pts push_changed
  process_addr s addr_edge =
      Option.map
        (λ (ends : ℕ × ℕ).
          let (r, changed) = add_pts s ends.1 ends.0 in push_changed r changed ends.1)
        (D.edge_endpoints s.pag.graph addr_edge)

  unfoldable pub process_offset :
      Propagator P D.Graph V.Vec Fp Q.Set S → ℕ → Option (Propagator P D.Graph V.Vec Fp Q.Set S)
  unfolding propagate
  process_offset s offset_edge = propagate s offset_edge true

  -- `for edge in &edges`
  unfoldable pub propagate_each :
      Propagator P D.Graph V.Vec Fp Q.Set S
      → List ℕ
      → Option (Propagator P D.Graph V.Vec Fp Q.Set S)
  unfolding propagate
  propagate_each s [] = some s
  propagate_each s (edge ∷ edges) =
      Option.bind (propagate s edge true)
        (λ (r : Propagator P D.Graph V.Vec Fp Q.Set S). propagate_each r edges)

  unfoldable pub handle_direct :
      Propagator P D.Graph V.Vec Fp Q.Set S → ℕ → Option (Propagator P D.Graph V.Vec Fp Q.Set S)
  unfolding propagate_each
  handle_direct s node_id =
      propagate_each s (HashMap.get_or_default ℕ_discrete s.pag.direct_out_edges node_id [])

  unfoldable pub handle_offset :
      Propagator P D.Graph V.Vec Fp Q.Set S → ℕ → Option (Propagator P D.Graph V.Vec Fp Q.Set S)
  unfolding propagate_each process_offset
  handle_offset s node_id =
      propagate_each s (HashMap.get_or_default ℕ_discrete s.pag.offset_out_edges node_id [])
