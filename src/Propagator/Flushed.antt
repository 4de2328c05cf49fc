-- ===== src/Propagator/Flushed.antt =====
-- `flush` and then `propagate`: what a node that is worked on again still sends.
use rupta_fork.Base.{ℕ, ◌^◌, ◌<◌, ◌≡◌, Bool, true, some, ℕ_discrete}
use rupta_fork.Petgraph.{DiGraph}
use rupta_fork.ChunkedQueue.{ArrayVec, chunk_cap}
use rupta_fork.PtsSet.{PointsToSet}
use rupta_fork.PtData.DiffPtData
use rupta_fork.PtData.DiffPtData.View.{points_to, IsStored}
use rupta_fork.Pag.{PagNode, PagEdge}
use rupta_fork.Pag.Ops.{node_path}
use rupta_fork.Pag.Direct.{PagPath}
use rupta_fork.Propagator.{Propagator, PtrTypes, EdgeFilter}

module _ {P F Ty Fp S : Type 0} (dec : Discrete P) (D : DiGraph (PagNode P) PagEdge)
    (V : ArrayVec ℕ chunk_cap) (A : PagPath P F Ty) (T : PtrTypes Ty) (E : EdgeFilter P S)
    (Q : PointsToSet) (s : Propagator P D.Graph V.Vec Fp Q.Set S) (edge src dst : ℕ)
    (src_path dst_path : P) (v : IsStored Q ℕ_discrete s.pt_data)
    (ends : D.edge_endpoints s.pag.graph edge ≡ some (src, dst))
    (src_node : node_path dec D V s.pag src ≡ some src_path)
    (dst_node : node_path dec D V s.pag dst ≡ some dst_path)
    (known : (x : ℕ)
      → points_to Q ℕ_discrete s.pt_data src x ≡ true
      → (x < 2 ^ 64)
        × (path : P) × (node_path dec D V s.pag x ≡ some path)
        × (filtered : Bool) × (E.stack_filter_pred s.stack_filter edge path ≡ some filtered)) where
  -- The end of `process_node` at the source.
  abbrev pub flush_src : Propagator P D.Graph V.Vec Fp Q.Set S
  flush_src = record s { pt_data = DiffPtData.flush Q ℕ_discrete s.pt_data src }
