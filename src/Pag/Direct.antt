-- ===== src/Pag/Direct.antt =====
-- src/graph/pag.rs: `add_new_direct_edges` and `add_inter_procedural_edges`. The trait `PAGPath` and
-- what the analysis context says of types and functions are the parameter `PagPath`.
use rupta_fork.Base.{ℕ, ◌+◌, List, [], ◌∷◌, ◌++◌, Bool, not, Option, none, some, if◌then◌else◌}
use mathlib.Core.Option
use rupta_fork.Petgraph.{DiGraph}
use rupta_fork.ChunkedQueue.{ArrayVec, chunk_cap}
use rupta_fork.MirPath.{ProjectionElems}
use rupta_fork.CallSite.{CallSite}
use rupta_fork.Pag.{Pag, PagNode, PagEdge}
use rupta_fork.Pag.Ops.{add_direct_edge}

-- `PAGPath` for paths `P` and functions `F`, with the queries of types `Ty` that are made of it.
pub record PagPath (P F Ty : Type 0) : Type 0 where
  pub new_parameter : F → ℕ → P
  pub new_return_value : F → P
  pub append_projection : P → ProjectionElems → P
  pub try_eval_path_type : P → Ty
  pub is_any_ptr : Ty → Bool
  pub get_pointer_projections : Ty → List (ProjectionElems × Ty)
  pub is_mir_available : F → Bool

module _ {P F Ty Fp : Type 0} (dec : Discrete P) (D : DiGraph (PagNode P) PagEdge)
    (V : ArrayVec ℕ chunk_cap) (A : PagPath P F Ty) where
  -- The closure: the edges added so far, with this one where it is new.
  unfoldable pub add_new_direct_edge :
      Pag P D.Graph V.Vec Fp → List ℕ → P → P → Option (List ℕ × Pag P D.Graph V.Vec Fp)
  add_new_direct_edge g added_edges src dst =
      Option.map
        (λ (r : Option ℕ × Pag P D.Graph V.Vec Fp).
          (elim r.0 [ none ↦ added_edges | some edge_id ↦ added_edges ++ edge_id ∷ [] ], r.1))
        (add_direct_edge dec D V g src dst)

  unfoldable pub add_projected :
      Pag P D.Graph V.Vec Fp
      → List ℕ
      → P
      → P
      → List (ProjectionElems × Ty)
      → Option (List ℕ × Pag P D.Graph V.Vec Fp)
  unfolding add_new_direct_edge
  add_projected g added_edges src dst [] = some (added_edges, g)
  add_projected g added_edges src dst ((ptr_proj, _) ∷ ptr_projs) =
      Option.bind
        (add_new_direct_edge g added_edges (A.append_projection src ptr_proj)
          (A.append_projection dst ptr_proj))
        (λ (r : List ℕ × Pag P D.Graph V.Vec Fp). add_projected r.1 r.0 src dst ptr_projs)

  unfoldable pub add_new_direct_edges :
      Pag P D.Graph V.Vec Fp → P → P → Ty → Option (List ℕ × Pag P D.Graph V.Vec Fp)
  unfolding add_projected
  add_new_direct_edges g src dst ty =
      if A.is_any_ptr ty
      then add_new_direct_edge g [] src dst
      else add_projected g [] src dst (A.get_pointer_projections ty)

  unfoldable pub add_args :
      Pag P D.Graph V.Vec Fp → List ℕ → F → ℕ → List P → Option (List ℕ × Pag P D.Graph V.Vec Fp)
  unfolding add_new_direct_edges
  add_args g added_edges callee i [] = some (added_edges, g)
  add_args g added_edges callee i (arg ∷ args) =
      Option.bind
        (add_new_direct_edges g arg (A.new_parameter callee (i + 1)) (A.try_eval_path_type arg))
        (λ (r : List ℕ × Pag P D.Graph V.Vec Fp).
          add_args r.1 (added_edges ++ r.0) callee (i + 1) args)

  unfoldable pub add_inter_procedural_edges :
      {Location : Type 0}
      → Pag P D.Graph V.Vec Fp
      → CallSite F Location P
      → F
      → Option (List ℕ × Pag P D.Graph V.Vec Fp)
  unfolding add_args
  add_inter_procedural_edges g callsite callee =
      if not (A.is_mir_available callee)
      then some ([], g)
      else Option.bind (add_args g [] callee 0 callsite.args)
          (λ (r : List ℕ × Pag P D.Graph V.Vec Fp).
            Option.map (λ (s : List ℕ × Pag P D.Graph V.Vec Fp). (r.0 ++ s.0, s.1))
              (add_new_direct_edges r.1 (A.new_return_value callee) callsite.destination
                (A.try_eval_path_type callsite.destination)))
