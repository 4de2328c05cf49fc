-- ===== src/FuncReach.antt =====
-- `FunctionReachabilityAnalysis` of src/pta/strategies/stack_filtering.rs: which functions a
-- function's calls lead to, by a worklist for each of them. A worklist is a list with its back
-- first, and `none` is a panic or the end of the fuel. The parallel loop is a loop over its rows in
-- any order, since each round writes the row of its own node under the lock.
pub mod Paths
pub mod Loop
pub mod Search
pub mod Parallel
pub mod Whole
use rupta_fork.Base.{
  ℕ, zero, suc, ◌+◌, List, [], ◌∷◌, Bool, true, false, Option, none, some, length, set, resize,
}
use mathlib.Core.Option
use rupta_fork.Base.HashMap
use rupta_fork.ChunkedQueue.{ArrayVec, chunk_cap}
use rupta_fork.ChunkedQueue.Growing.{drain}
use rupta_fork.Reach.{RowRelation, ReachabilityRelation, is_reachable, add_reachable}
use rupta_fork.Reach
use rupta_fork.CallGraph.{DiGraph, CallGraphNode, CallGraphEdge, Cg, reach_funcs_iter}

-- `for neighbor in neighbors { worklist.push_back(neighbor) }`
unfoldable pub push_all : List ℕ → List ℕ → List ℕ
push_all worklist [] = worklist
push_all worklist (neighbor ∷ neighbors) = push_all (neighbor ∷ worklist) neighbors

-- `while !worklist.is_empty()`, whatever the nodes that were met are kept in.
module _ {S : Type 0} (contains : S → ℕ → Option Bool) (insert : S → ℕ → Option S)
    (neighbors : ℕ → List ℕ) where
  unfoldable pub search : ℕ → S → List ℕ → Option S
  unfolding push_all
  search zero s worklist = none
  search (suc fuel) s [] = some s
  search (suc fuel) s (reach_node ∷ worklist) = Option.bind (contains s reach_node) (λ reached.
      elim reached [
        | true ↦ search fuel s worklist
        | false ↦
            Option.bind (insert s reach_node)
              (λ s'. search fuel s' (push_all worklist (neighbors reach_node)))
      ])

-- The edges out of the nodes below `n`, and rounds enough for a search from a node.
unfoldable pub out_edges : (ℕ → List ℕ) → ℕ → ℕ
out_edges neighbors zero = 0
out_edges neighbors (suc n) = length (neighbors n) + out_edges neighbors n

unfoldable pub rounds : (ℕ → List ℕ) → ℕ → ℕ → ℕ
unfolding out_edges
rounds neighbors n func = suc (length (neighbors func) + out_edges neighbors n)

module _ {S B : Type 0} (dec_s : Discrete S) (dec_b : Discrete B) (dec_f : Discrete ℕ)
    (D : DiGraph (CallGraphNode ℕ) (CallGraphEdge S)) (V : ArrayVec ℕ chunk_cap)
    (R : RowRelation) where
  -- `compute_func_reach_relations_`
  unfoldable pub compute_from :
      ℕ → D.Graph → ReachabilityRelation R.Row → Option (ReachabilityRelation R.Row)
  unfolding search push_all rounds
  compute_from func graph reach_relation =
      search (λ r. is_reachable R r func) (λ r. add_reachable R r func) (D.neighbors graph)
        (rounds (D.neighbors graph) (D.node_count graph) func) reach_relation
        (push_all [] (D.neighbors graph func))

  -- `for func in call_graph.reach_funcs_iter()`
  unfoldable pub compute_each :
      Cg dec_f dec_s dec_b D V
      → List ℕ
      → ReachabilityRelation R.Row
      → Option (ReachabilityRelation R.Row)
  unfolding compute_from
  compute_each cg [] reach_relation = some reach_relation
  compute_each cg (func ∷ funcs) reach_relation =
      Option.bind (HashMap.get dec_f cg.func_nodes func) (λ func_node_id.
        Option.bind (compute_from func_node_id cg.graph reach_relation)
          (λ relation. compute_each cg funcs relation))

  unfoldable pub compute_func_reach_relations :
      Cg dec_f dec_s dec_b D V → Option (ReachabilityRelation R.Row)
  unfolding compute_each
  compute_func_reach_relations cg =
      compute_each cg
        (drain V cg.reach_funcs (suc cg.reach_funcs.len)
          (reach_funcs_iter dec_f dec_s dec_b D V cg))
        (Reach.new R (D.node_count cg.graph))

  -- What one round of the parallel loop computes.
  unfoldable pub reachable_funcs : D.Graph → ℕ → Option R.Row
  unfolding search push_all rounds
  reachable_funcs graph node_index =
      search R.contains R.insert (D.neighbors graph)
        (rounds (D.neighbors graph) (D.node_count graph) node_index)
        (R.with_capacity (D.node_count graph)) (push_all [] (D.neighbors graph node_index))

  unfoldable pub fill_rows : D.Graph → List ℕ → List R.Row → Option (List R.Row)
  unfolding reachable_funcs
  fill_rows graph [] matrix = some matrix
  fill_rows graph (node_index ∷ order) matrix =
      Option.bind (reachable_funcs graph node_index)
        (λ row. fill_rows graph order (set matrix node_index row))

  unfoldable pub compute_func_reach_relations_mt :
      Cg dec_f dec_s dec_b D V → List ℕ → Option (ReachabilityRelation R.Row)
  unfolding fill_rows
  compute_func_reach_relations_mt cg order =
      Option.map (λ matrix. record { num_nodes = D.node_count cg.graph; relation_matrix = matrix })
        (fill_rows cg.graph order (resize [] (D.node_count cg.graph) R.new_empty))
