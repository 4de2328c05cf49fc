-- ===== src/CallGraph.antt =====
-- src/graph/call_graph.rs: the call graph. `Graph` of the crate petgraph is the parameter `DiGraph`,
-- the standard maps and sets are association lists and lists, and a function, a call site and a
-- base call site are types with decidable equality. `none` is a panic. `to_dot` only prints.
pub mod Edges
pub mod Funcs
pub mod Nodes
pub mod Calls
pub mod Connect
pub mod AddEdge
use rupta_fork.Base.{
  ℕ, ◌+◌, ◌<◌, ◌≡◌, ◌↔◌, List, [], ◌∷◌, ◌++◌, Bool, true, false, Option, none, some, length,
  get_elem?, has, ℕ_discrete, if◌then◌else◌,
}
use mathlib.Core.Option
pub use rupta_fork.Petgraph.{DiGraph}
use rupta_fork.Base.HashMap
use rupta_fork.Base.HashSet
use rupta_fork.CallSite.{CallType}
use rupta_fork.ChunkedQueue.{ArrayVec, ChunkedQueue, Cursor, chunk_cap}
use rupta_fork.ChunkedQueue

pub record CallGraphNode (F : Type 0) : Type 0 where
  pub func : F

pub record CallGraphEdge (S : Type 0) : Type 0 where
  pub callsite : S

-- `B` is `BaseCallSite`, `G` the graph and `V` the vectors of the queue's chunks.
pub record CallGraph (F S B G V : Type 0) : Type 0 where
  pub graph : G
  pub func_nodes : List (F × ℕ)
  pub callsite_to_edges : List (S × List ℕ)
  pub callsite_to_type : List (B × CallType)
  pub reach_funcs : ChunkedQueue V

unfoldable pub new_node : {F : Type 0} → F → CallGraphNode F
new_node func = record { func = func }

unfoldable pub new_edge : {S : Type 0} → S → CallGraphEdge S
new_edge callsite = record { callsite = callsite }

module _ {F S B : Type 0} (dec_f : Discrete F) (dec_s : Discrete S) (dec_b : Discrete B)
    (D : DiGraph (CallGraphNode F) (CallGraphEdge S)) (V : ArrayVec F chunk_cap) where
  abbrev pub Cg : Type 0
  Cg = CallGraph F S B D.Graph V.Vec

  unfoldable pub new : Cg
  new = record {
    graph = D.new;
    func_nodes = [];
    callsite_to_edges = [];
    callsite_to_type = [];
    reach_funcs = ChunkedQueue.new V;
  }

  unfoldable pub add_reach_func : Cg → F → Option Cg
  add_reach_func cg func =
      Option.map (λ queue. record cg { reach_funcs = queue })
        (ChunkedQueue.push V cg.reach_funcs func)

  unfoldable pub reach_funcs_iter : Cg → Cursor
  reach_funcs_iter cg = ChunkedQueue.iter_copied V cg.reach_funcs

  unfoldable pub add_node : Cg → F → Option Cg
  unfolding add_reach_func new_node
  add_node cg func = elim (HashMap.get dec_f cg.func_nodes func) [
    | some _ ↦ some cg
    | none ↦
        let (graph, node_id) = D.add_node cg.graph (new_node func) in
        let nodes = HashMap.insert dec_f cg.func_nodes func node_id in
        add_reach_func (record cg { graph = graph; func_nodes = nodes }) func
  ]

  unfoldable pub get_or_insert_node : Cg → F → Option (ℕ × Cg)
  unfolding new_node
  get_or_insert_node cg func = elim (HashMap.get dec_f cg.func_nodes func) [
    | some node_id ↦ some (node_id, cg)
    | none ↦
        Option.map
          (λ queue.
            let (graph, node_id) = D.add_node cg.graph (new_node func) in
            let nodes = HashMap.insert dec_f cg.func_nodes func node_id in
            (node_id, record cg { graph = graph; func_nodes = nodes; reach_funcs = queue }))
          (ChunkedQueue.push V cg.reach_funcs func)
  ]

  unfoldable pub set_callsite_type : Cg → B → CallType → Cg
  set_callsite_type cg callsite call_type = record cg {
    callsite_to_type = HashMap.insert dec_b cg.callsite_to_type callsite call_type;
  }

  unfoldable pub get_callsite_type : Cg → B → Option CallType
  get_callsite_type cg callsite = HashMap.get dec_b cg.callsite_to_type callsite

  unfoldable pub edge_endpoints : Cg → ℕ → Option (ℕ × ℕ)
  edge_endpoints cg edge_id = D.edge_endpoints cg.graph edge_id

  unfoldable pub get_callee_id_of_edge : Cg → ℕ → Option F
  unfolding edge_endpoints
  get_callee_id_of_edge cg edge_id = elim (edge_endpoints cg edge_id) [
    | none ↦ none
    | some (_, callee_node) ↦
        Option.map (λ (node : CallGraphNode F). node.func) (D.node_weight cg.graph callee_node)
  ]

  -- The functions that the edges lead to, collected into a set.
  unfoldable pub callees_of : D.Graph → List ℕ → Option (List F)
  callees_of graph [] = some []
  callees_of graph (edge_id ∷ edges) =
      let rest = callees_of graph edges in
      elim (D.edge_endpoints graph edge_id) [
        | none ↦ rest
        | some (_, target) ↦ Option.bind (D.node_weight graph target) (λ (node : CallGraphNode F).
            Option.map (λ callees. HashSet.insert dec_f callees node.func) rest)
      ]

  unfoldable pub get_callees : Cg → S → Option (List F)
  unfolding callees_of
  get_callees cg callsite = elim (HashMap.get dec_s cg.callsite_to_edges callsite) [
    | some edges ↦ callees_of cg.graph edges
    | none ↦ some []
  ]

  unfoldable pub has_edge : Cg → S → F → Option Bool
  unfolding get_callees
  has_edge cg callsite callee_id =
      Option.map (λ callees. HashSet.contains dec_f callees callee_id) (get_callees cg callsite)

  -- The second half of `add_edge`: the edge between two nodes that are there.
  unfoldable pub connect : Cg → S → ℕ → ℕ → Option (Bool × Cg)
  unfolding new_edge
  connect cg callsite caller_node callee_node =
      Option.map
        (λ (added : D.Graph × ℕ).
          let edges = HashMap.get_or_default dec_s cg.callsite_to_edges callsite [] in
          let with_edge = HashSet.insert ℕ_discrete edges added.1 in
          (
            true,
            record cg {
              graph = added.0;
              callsite_to_edges = HashMap.insert dec_s cg.callsite_to_edges callsite with_edge;
            },
          ))
        (D.add_edge cg.graph caller_node callee_node (new_edge callsite))

  unfoldable pub add_edge : Cg → S → F → F → Option (Bool × Cg)
  unfolding get_or_insert_node get_callees connect
  add_edge cg callsite caller_id callee_id =
      Option.bind (get_or_insert_node cg caller_id) (λ (caller : ℕ × Cg).
        Option.bind (get_or_insert_node caller.1 callee_id) (λ (callee : ℕ × Cg).
          Option.bind (get_callees callee.1 callsite) (λ (callees : List F).
            if HashSet.contains dec_f callees callee_id
            then some (false, callee.1)
            else connect callee.1 callsite caller.0 callee.0)))
