-- ===== src/Tests/Assign.antt =====
-- The theorems on the pointer assignment graph at a concrete input: an edge from path 3 to path 4
-- in the new graph.
use rupta_fork.Base.{
  ℕ, suc, List, ◌+◌, ◌*◌, ◌==◌, ◌∷◌, Bool, true, not, ltb, ◌≡◌, [], none, some, if◌then◌else◌,
  length, ℕ_discrete,
}
use rupta_fork.Petgraph.{DiGraph}
use rupta_fork.Pag.{Pag, PagNode, PagEdge, cast_edge, load_edge}
use rupta_fork.Pag.Ops.{new, add_node, get_or_insert_node, has_edge, add_edge}
use rupta_fork.Pag.Empty.{new-IsValid}
use rupta_fork.Pag.Nodes.{Noded, get_or_insert_node-add_node}
use rupta_fork.Pag.AddEdge.{AddsEdge}
use rupta_fork.MirPath.{field}
use rupta_fork.CallSite.{CallSite}
use rupta_fork.Pag.Direct.{PagPath, add_inter_procedural_edges}
use rupta_fork.Pag.Calls.{Connected, call_pairs, add_inter_procedural_edges-Connected}
use rupta_fork.Pag.Added.{add_edge-AddsEdge}
use rupta_fork.ChunkedQueue.{ArrayVec, chunk_cap}
use rupta_fork.FuncPag
use rupta_fork.FuncPag.{FuncPag, InternalEdge}
use rupta_fork.FuncPag.Edges.{drain_iter, add_internal_edges, add_internal_edges-iter}
use rupta_fork.Tests.Instances.{list_graph, list_array_vec}
use rupta_fork.Tests.Graphs.{vec}

abbrev pub assigns : DiGraph (PagNode ℕ) PagEdge
assigns = list_graph (PagNode ℕ) PagEdge

abbrev pub start : Pag ℕ assigns.Graph vec.Vec ℕ
start = new ℕ_discrete assigns vec

get_or_insert_node-add_node_example :
    (r : Pag ℕ assigns.Graph vec.Vec ℕ) × (i : ℕ) × (add_node ℕ_discrete assigns vec start 3 ≡ r)
    × (get_or_insert_node ℕ_discrete assigns vec start 3 ≡ (i, r))
    × Noded ℕ_discrete assigns vec start r 3 i
get_or_insert_node-add_node_example =
    get_or_insert_node-add_node ℕ_discrete assigns vec start (new-IsValid ℕ ℕ_discrete assigns vec)
      3

add_edge-AddsEdge_example :
    (r : Pag ℕ assigns.Graph vec.Vec ℕ) × (add_edge ℕ_discrete assigns vec start 3 4 (load_edge [])
      ≡ some (
        if has_edge ℕ_discrete assigns vec start 3 4 (load_edge [])
            then none
            else some (length (assigns.ends start.graph)),
        r,
      ))
    × AddsEdge ℕ_discrete assigns vec start 3 4 (load_edge []) r
add_edge-AddsEdge_example =
    add_edge-AddsEdge ℕ_discrete assigns vec start (new-IsValid ℕ ℕ_discrete assigns vec) 3 4
      (load_edge [])

-- Paths are numbers, of which those below 10 are pointers and the others have one pointer field.
abbrev pub numbers : PagPath ℕ ℕ Bool
numbers = record {
  new_parameter = λ callee ordinal. 100 * callee + ordinal;
  new_return_value = λ callee. 100 * callee;
  append_projection = λ path projection_elems. 1000 * suc (length projection_elems) + path;
  try_eval_path_type = λ path. ltb path 10;
  is_any_ptr = λ ty. ty;
  get_pointer_projections = λ ty. (field 0 ∷ [], true) ∷ [];
  is_mir_available = λ func. not (func == 0);
}

-- `5 := f7(3, 40)` in the new graph.
abbrev site : CallSite ℕ ℕ ℕ
site = record { func = 1; location = 0; args = 3 ∷ 40 ∷ []; destination = 5 }

add_inter_procedural_edges-Connected_example :
    Connected ℕ_discrete assigns vec numbers start []
      (call_pairs numbers site 7)
      (add_inter_procedural_edges ℕ_discrete assigns vec numbers start site 7)
add_inter_procedural_edges-Connected_example =
    add_inter_procedural_edges-Connected ℕ_discrete assigns vec numbers start site 7
      (new-IsValid ℕ ℕ_discrete assigns vec)

abbrev edge_vec : ArrayVec (InternalEdge ℕ) chunk_cap
edge_vec = list_array_vec chunk_cap

abbrev internal : List (InternalEdge ℕ)
internal = (1, 2, cast_edge) ∷ (2, 3, load_edge []) ∷ []

add_internal_edges-iter_example :
    (r : FuncPag ℕ ℕ edge_vec.Vec) × (add_internal_edges edge_vec (FuncPag.new edge_vec 7) internal
      ≡ some r)
    × (drain_iter edge_vec r.internal_edges
          (suc (length internal))
          (FuncPag.internal_edges_iter edge_vec r)
        ≡ internal)
add_internal_edges-iter_example = add_internal_edges-iter edge_vec 7 internal
