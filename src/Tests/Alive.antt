-- ===== src/Tests/Alive.antt =====
-- The theorems on the stack filter at concrete inputs, over the call graph of two functions.
use rupta_fork.Base.{
  ℕ, ◌≡◌, ◌↔◌, ◌⊎◌, refl, ap, subst, ◌∙◌, [], ◌∷◌, Bool, true, false, none, some, ℕ_discrete,
}
use mathlib.Core.Option
use mathlib.Core.Option.{some-injective}
use rupta_fork.Base.HashMap
use rupta_fork.Base.HashSet
use rupta_fork.ChunkedQueue
use rupta_fork.CallGraph
use rupta_fork.Context.{Context, last_context_element}
use rupta_fork.CallSite.{CsFuncId, BaseCallSite, to_func_id}
use rupta_fork.HybridSet.Laws.{hybrid_points_to_set}
use rupta_fork.MirPath.{PathEnum, local_variable}
use rupta_fork.MirPath.Project.{get_containing_func}
use rupta_fork.StackFilter
use rupta_fork.StackFilter.{FunctionInfo}
use rupta_fork.StackFilter.Match.{Overlaps, match_suffix_and_prefix_iff}
use rupta_fork.StackFilter.Naive.{
  Filter, IsFiltered, node_of, Leads, new-IsFiltered, nodes_reachable-none,
}
use rupta_fork.StackFilter.Filter.{Answers, is_potentially_alive_lem}
use rupta_fork.StackFilter.Chains.{Fits, cs_is_reachable_from-chains}
use rupta_fork.Tests.Graphs.{vec, graph, two, two-IsValid, both, both-whole}

match_suffix_and_prefix_iff_example :
    (StackFilter.match_suffix_and_prefix ℕ_discrete (3 ∷ 4 ∷ []) (4 ∷ 5 ∷ []) ≡ true)
    ↔ Overlaps {E = ℕ} (3 ∷ 4 ∷ []) (4 ∷ 5 ∷ [])
match_suffix_and_prefix_iff_example =
    match_suffix_and_prefix_iff ℕ_discrete (3 ∷ 4 ∷ []) (4 ∷ 5 ∷ [])

-- The stack filter of that call graph, for functions of type `F`.
module _ {F : Type 0} where
  pub filtered :
      (s : Filter ℕ_discrete ℕ_discrete graph vec hybrid_points_to_set F ℕ) × (StackFilter.new
          ℕ_discrete ℕ_discrete graph vec hybrid_points_to_set two both
        ≡ some s)
      × (s.call_graph ≡ two)
      × IsFiltered ℕ_discrete ℕ_discrete graph vec hybrid_points_to_set s
  filtered =
      new-IsFiltered ℕ_discrete ℕ_discrete graph vec hybrid_points_to_set two both two-IsValid
        both-whole

abbrev pub filter : Filter ℕ_discrete ℕ_discrete graph vec hybrid_points_to_set ℕ ℕ
filter = filtered.0

caller_node : HashMap.get ℕ_discrete two.func_nodes 7 ≡ some 0
unfolding CallGraph.add_edge CallGraph.new ChunkedQueue.push ChunkedQueue.new HashMap.get
    HashMap.insert HashSet.contains HashSet.insert ℕ_discrete Option.bind
caller_node = refl

callee_node : HashMap.get ℕ_discrete two.func_nodes 8 ≡ some 1
unfolding CallGraph.add_edge CallGraph.new ChunkedQueue.push ChunkedQueue.new HashMap.get
    HashMap.insert HashSet.contains HashSet.insert ℕ_discrete Option.bind
callee_node = refl

caller-filter : node_of ℕ_discrete ℕ_discrete graph vec hybrid_points_to_set filter 7 ≡ some 0
caller-filter = ap (λ g. HashMap.get ℕ_discrete g.func_nodes 7) filtered.2 ∙ caller_node

pub callee-filter : node_of ℕ_discrete ℕ_discrete graph vec hybrid_points_to_set filter 8 ≡ some 1
callee-filter = ap (λ g. HashMap.get ℕ_discrete g.func_nodes 8) filtered.2 ∙ callee_node

nodes_reachable-none_example :
    (StackFilter.nodes_reachable ℕ_discrete ℕ_discrete graph vec hybrid_points_to_set filter 7 9
      ≡ none)
    ↔ ((node_of ℕ_discrete ℕ_discrete graph vec hybrid_points_to_set filter 7 ≡ none)
        ⊎ (node_of ℕ_discrete ℕ_discrete graph vec hybrid_points_to_set filter 9 ≡ none))
nodes_reachable-none_example =
    nodes_reachable-none ℕ_discrete ℕ_discrete graph vec hybrid_points_to_set filter filtered.3 7 9

abbrev pub info : FunctionInfo
info = record { is_promoted = λ f. false; is_const = λ f. false }

-- The local variables of function 7.
abbrev pub slot : ℕ → PathEnum ℕ ℕ
slot i = local_variable 7 i

pub slot_owner :
    (i g : ℕ)
    → get_containing_func (slot i) ≡ some g
    → (j : ℕ) × (node_of ℕ_discrete ℕ_discrete graph vec hybrid_points_to_set filter g ≡ some j)
unfolding get_containing_func
slot_owner i g owned = (
  0,
  subst (λ f. node_of ℕ_discrete ℕ_discrete graph vec hybrid_points_to_set filter f ≡ some 0)
      (some-injective 7 g owned) caller-filter,
)

is_potentially_alive_lem_example :
    (b : Bool) × Answers ℕ_discrete ℕ_discrete graph vec hybrid_points_to_set info filter 8 1
      (slot 0)
      b
is_potentially_alive_lem_example =
    is_potentially_alive_lem ℕ_discrete ℕ_discrete graph vec hybrid_points_to_set info filter 8 1
      (slot 0) filtered.3 callee-filter (slot_owner 0)

abbrev cs_filter : Filter ℕ_discrete ℕ_discrete graph vec hybrid_points_to_set CsFuncId ℕ
cs_filter = StackFilter.with_kcs_context_strategy hybrid_points_to_set filtered.0 1

-- Every context is one call site in function 7.
abbrev context_of : ℕ → ℕ → Context (BaseCallSite ℕ ℕ)
context_of strategy cid = record { context_elems = record { func = 7; location = 2 } ∷ [] }

cs_filter-IsFiltered : IsFiltered ℕ_discrete ℕ_discrete graph vec hybrid_points_to_set cs_filter
unfolding StackFilter.with_kcs_context_strategy
cs_filter-IsFiltered = record { graph = filtered.3.graph; relation = filtered.3.relation }

cs_filter-node : node_of ℕ_discrete ℕ_discrete graph vec hybrid_points_to_set cs_filter 7 ≡ some 0
unfolding StackFilter.with_kcs_context_strategy
cs_filter-node = ap (λ g. HashMap.get ℕ_discrete g.func_nodes 7) filtered.2 ∙ caller_node

abbrev cs_caller : CsFuncId
cs_caller = record { cid = 0; func_id = 7 }

abbrev cs_callee : CsFuncId
cs_callee = record { cid = 1; func_id = 8 }

cs_is_reachable_from-chains_example :
    (b : Bool) × (StackFilter.cs_is_reachable_from ℕ_discrete ℕ_discrete graph vec
        hybrid_points_to_set context_of cs_filter cs_callee cs_caller
      ≡ some b)
    × ((b ≡ true) ↔ (
        Fits ℕ_discrete ℕ_discrete graph vec hybrid_points_to_set context_of cs_filter 1 cs_callee
          cs_caller
        ⊎ Leads ℕ_discrete ℕ_discrete graph vec hybrid_points_to_set cs_filter 0 0))
unfolding StackFilter.with_kcs_context_strategy StackFilter.outermost to_func_id
    last_context_element
cs_is_reachable_from-chains_example =
    cs_is_reachable_from-chains ℕ_discrete ℕ_discrete graph vec hybrid_points_to_set context_of
      cs_filter cs_filter-IsFiltered cs_callee cs_caller 0 0 cs_filter-node 1 refl refl
      cs_filter-node
