-- ===== src/Tests/Graphs.antt =====
-- The theorems on the queue, the call graph and its relation at concrete inputs: function 7 calls
-- function 8 at call site 1.
use rupta_fork.Base.{
  ℕ, suc, ◌<◌, ◌≡◌, ◌↔◌, refl, sym, ap, subst, ◌∙◌, List, [], ◌∷◌, true, not, none, some, length,
  has, arith, ℕ_discrete,
}
use mathlib.Core.Option
use mathlib.Core.Option.{some-injective}
use rupta_fork.Base.HashMap
use rupta_fork.Base.HashSet
use rupta_fork.BitVec.{BitVec}
use rupta_fork.ChunkedQueue
use rupta_fork.ChunkedQueue.{ArrayVec, ChunkedQueue, Cursor, chunk_cap}
use rupta_fork.ChunkedQueue.Chain.{contents}
use rupta_fork.ChunkedQueue.Push
use rupta_fork.ChunkedQueue.Push.{Pushes, push-Pushes}
use rupta_fork.ChunkedQueue.Iterate.{iter_copied-At}
use rupta_fork.ChunkedQueue.Growing.{drain, drain-iter_copied, push-next_copied}
use rupta_fork.Petgraph.{DiGraph}
use rupta_fork.CallGraph
use rupta_fork.CallGraph.{CallGraphNode, CallGraphEdge, Cg}
use rupta_fork.CallGraph.Nodes
use rupta_fork.CallGraph.Nodes.{Noded, add_node-get_or_insert_node}
use rupta_fork.CallGraph.Calls.{calls, get_callees-calls}
use rupta_fork.CallGraph.AddEdge.{Adds, add_edge-Adds}
use rupta_fork.Reach.{ReachabilityRelation, is_reachable}
use rupta_fork.Reach.Rows.{bit_row}
use rupta_fork.FuncReach.{compute_func_reach_relations, compute_func_reach_relations_mt}
use rupta_fork.FuncReach.Parallel.{IsReach}
use rupta_fork.FuncReach.Whole.{
  compute_func_reach_relations-IsReach, compute_func_reach_relations-agrees,
}
use rupta_fork.Tests.Instances.{list_array_vec, list_graph}

abbrev pub vec : ArrayVec ℕ chunk_cap
vec = list_array_vec chunk_cap

push-Pushes_example :
    (r : ChunkedQueue (List ℕ)) × (ChunkedQueue.push vec (ChunkedQueue.new vec) 5 ≡ some r)
    × Pushes vec (ChunkedQueue.new vec) (Push.new-IsValid vec) 5 r
push-Pushes_example = push-Pushes vec (ChunkedQueue.new vec) (Push.new-IsValid vec) 5

-- A queue of one element.
abbrev one : ChunkedQueue (List ℕ)
one = (push-Pushes vec (ChunkedQueue.new vec) (Push.new-IsValid vec) 5).0

one-IsValid : Push.IsValid vec one
one-IsValid = (push-Pushes vec (ChunkedQueue.new vec) (Push.new-IsValid vec) 5).2.valid

drain-iter_copied_example :
    drain vec one (suc (length (contents vec one.chunks))) (ChunkedQueue.iter_copied vec one)
    ≡ contents vec one.chunks
drain-iter_copied_example = drain-iter_copied vec one one-IsValid

abbrev pub graph : DiGraph (CallGraphNode ℕ) (CallGraphEdge ℕ)
graph = list_graph (CallGraphNode ℕ) (CallGraphEdge ℕ)

abbrev pub empty : Cg ℕ_discrete ℕ_discrete ℕ_discrete graph vec
empty = CallGraph.new ℕ_discrete ℕ_discrete ℕ_discrete graph vec

empty-IsValid : Nodes.IsValid ℕ_discrete ℕ_discrete ℕ_discrete graph vec empty
empty-IsValid = Nodes.new-IsValid ℕ_discrete ℕ_discrete ℕ_discrete graph vec

add_edge-Adds_example :
    (r : Cg ℕ_discrete ℕ_discrete ℕ_discrete graph vec) × (CallGraph.add_edge ℕ_discrete ℕ_discrete
        ℕ_discrete graph vec empty 1 7 8
      ≡ some (not (calls ℕ_discrete ℕ_discrete ℕ_discrete graph vec empty 1 8), r))
    × Adds ℕ_discrete ℕ_discrete ℕ_discrete graph vec empty empty-IsValid 1 7 8 r
add_edge-Adds_example =
    add_edge-Adds ℕ_discrete ℕ_discrete ℕ_discrete graph vec empty empty-IsValid 1 7 8

-- The call graph with that call.
abbrev pub two : Cg ℕ_discrete ℕ_discrete ℕ_discrete graph vec
two = elim (CallGraph.add_edge ℕ_discrete ℕ_discrete ℕ_discrete graph vec empty 1 7 8) [
  | none ↦ empty
  | some (_, r) ↦ r
]

pub two-add_edge :
    CallGraph.add_edge ℕ_discrete ℕ_discrete ℕ_discrete graph vec empty 1 7 8 ≡ some (true, two)
unfolding CallGraph.add_edge CallGraph.new ChunkedQueue.push ChunkedQueue.new HashMap.get
    HashMap.insert HashSet.contains HashSet.insert ℕ_discrete Option.bind
two-add_edge = refl

pub two-IsValid : Nodes.IsValid ℕ_discrete ℕ_discrete ℕ_discrete graph vec two
two-IsValid =
    let (r, run, a) =
      add_edge-Adds ℕ_discrete ℕ_discrete ℕ_discrete graph vec empty empty-IsValid 1 7 8 in
    let same : r ≡ two = ap (λ p. p.1) (some-injective _ _ (sym run ∙ two-add_edge)) in
    subst (Nodes.IsValid ℕ_discrete ℕ_discrete ℕ_discrete graph vec) same a.valid

abbrev pub both : List ℕ
both = 1 ∷ 0 ∷ []

two-nodes : graph.node_count two.graph ≡ 2
unfolding CallGraph.add_edge CallGraph.new ChunkedQueue.push ChunkedQueue.new HashMap.get
    HashMap.insert HashSet.contains HashSet.insert ℕ_discrete Option.bind
two-nodes = refl

pub both-whole : (i : ℕ) → (has both i ≡ true) ↔ (i < graph.node_count two.graph)
both-whole i = (
  λ h. subst (λ n. i < n) (sym two-nodes) (ground (arith, h)),
  λ h. let lt : i < 2 = subst (λ n. i < n) two-nodes h in ground arith,
)

compute_func_reach_relations-IsReach_example :
    (q : ReachabilityRelation BitVec) × (compute_func_reach_relations ℕ_discrete ℕ_discrete
        ℕ_discrete graph vec bit_row two
      ≡ some q)
    × IsReach ℕ_discrete ℕ_discrete ℕ_discrete graph vec bit_row two.graph q
compute_func_reach_relations-IsReach_example =
    compute_func_reach_relations-IsReach ℕ_discrete ℕ_discrete ℕ_discrete graph vec bit_row two
      two-IsValid

compute_func_reach_relations-agrees_example :
    (q : ReachabilityRelation BitVec) × (r : ReachabilityRelation BitVec)
    × (compute_func_reach_relations ℕ_discrete ℕ_discrete ℕ_discrete graph vec bit_row two ≡ some q)
    × (compute_func_reach_relations_mt ℕ_discrete ℕ_discrete ℕ_discrete graph vec bit_row two both
        ≡ some r)
    × ((i j : ℕ) → is_reachable bit_row q i j ≡ is_reachable bit_row r i j)
compute_func_reach_relations-agrees_example =
    compute_func_reach_relations-agrees ℕ_discrete ℕ_discrete ℕ_discrete graph vec bit_row two
      two-IsValid both both-whole

add_node-get_or_insert_node_example :
    (r : Cg ℕ_discrete ℕ_discrete ℕ_discrete graph vec) × (i : ℕ) × (CallGraph.add_node ℕ_discrete
        ℕ_discrete ℕ_discrete graph vec two 9
      ≡ some r)
    × (CallGraph.get_or_insert_node ℕ_discrete ℕ_discrete ℕ_discrete graph vec two 9 ≡ some (i, r))
    × Noded ℕ_discrete ℕ_discrete ℕ_discrete graph vec two r 9 i
add_node-get_or_insert_node_example =
    add_node-get_or_insert_node ℕ_discrete ℕ_discrete ℕ_discrete graph vec two two-IsValid 9

get_callees-calls_example :
    (fs : List ℕ) × (CallGraph.get_callees ℕ_discrete ℕ_discrete ℕ_discrete graph vec two 1
      ≡ some fs)
    × ((f : ℕ)
        → HashSet.contains ℕ_discrete fs f
          ≡ calls ℕ_discrete ℕ_discrete ℕ_discrete graph vec two 1 f)
get_callees-calls_example =
    get_callees-calls ℕ_discrete ℕ_discrete ℕ_discrete graph vec two two-IsValid 1

push-next_copied_example :
    ((ChunkedQueue.next_copied vec
        (ChunkedQueue.new vec)
        (ChunkedQueue.iter_copied vec (ChunkedQueue.new vec))).0
      ≡ none)
    × (r : ChunkedQueue (List ℕ)) × (ChunkedQueue.push vec (ChunkedQueue.new vec) 5 ≡ some r)
    × ((ChunkedQueue.next_copied vec r (ChunkedQueue.iter_copied vec (ChunkedQueue.new vec))).0
        ≡ some 5)
    × ((ChunkedQueue.next_copied vec r
          (ChunkedQueue.next_copied vec r
            (ChunkedQueue.iter_copied vec (ChunkedQueue.new vec))).1).0
        ≡ none)
push-next_copied_example =
    push-next_copied vec (ChunkedQueue.new vec) (Push.new-IsValid vec) 5
      (ChunkedQueue.iter_copied vec (ChunkedQueue.new vec))
      (unfold ChunkedQueue.new in iter_copied-At vec (ChunkedQueue.new vec) (Push.new-IsValid vec))
