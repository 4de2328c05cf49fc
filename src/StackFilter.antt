-- ===== src/StackFilter.antt =====
-- `StackFilter` of src/pta/strategies/stack_filtering.rs: whether an object of one function's frame
-- may be alive while another function runs. A function `F` has its `FuncId` by `into`, `K` is the
-- context strategy that it asks for contexts, and `acx` answers two questions about a function.
-- `none` is a panic of `unwrap`. The time that the analysis took is not modelled.
pub mod Match
pub mod Filter
pub mod Naive
pub mod Chains
use rupta_fork.Base.{
  ℕ, zero, suc, ◌+◌, ◌-◌, List, [], ◌∷◌, map, Bool, true, false, ◌&&◌, ◌==◌, Option, none, some,
  ltb, if◌then◌else◌, length, drop, min, ℕ_discrete,
}
use mathlib.Core.Option
use rupta_fork.Base.HashMap
use rupta_fork.Base.HashSet.{same}
use rupta_fork.BitVec.{BitVec}
use rupta_fork.PtsSet.{PointsToSet}
use rupta_fork.Context.{Context, last_context_element}
use rupta_fork.CallSite.{CsFuncId, BaseCallSite, to_func_id}
use rupta_fork.ChunkedQueue.{ArrayVec, chunk_cap}
use rupta_fork.MirPath.{PathEnum, heap_obj, qualified_path, offset_path}
use rupta_fork.Reach.{ReachabilityRelation, is_reachable}
use rupta_fork.Reach.Rows.{bit_row}
use rupta_fork.CallGraph.{DiGraph, CallGraphNode, CallGraphEdge, CallGraph, Cg}
use rupta_fork.FuncReach.{compute_func_reach_relations_mt}

-- `C` is the call graph, `K` the context strategy and `V` a points-to set.
pub record StackFilter (F C K V : Type 0) : Type 0 where
  pub call_graph : C
  pub reach_relation : ReachabilityRelation BitVec
  pub pag_edge_to_func : List (ℕ × F)
  pub with_kcs_context : Bool
  pub kcs_context_strategy : Option K
  pub collect_filtered_pts : Bool
  pub filtered_pts : List (ℕ × V)

module _ {F C K : Type 0} (P : PointsToSet) where
  open P use {Set}

  unfoldable pub with_kcs_context_strategy : StackFilter F C K Set → K → StackFilter F C K Set
  with_kcs_context_strategy s strategy = record s {
    with_kcs_context = true;
    kcs_context_strategy = some strategy;
  }

  -- `with_stack_filter` of a context strategy: the call-site strategy's, and the others', which
  -- keep the trait's empty one.
  unfoldable pub with_stack_filter : K → StackFilter F C K Set → StackFilter F C K Set
  unfolding with_kcs_context_strategy
  with_stack_filter strategy stack_filter = with_kcs_context_strategy stack_filter strategy

  unfoldable pub without_stack_filter : K → StackFilter F C K Set → StackFilter F C K Set
  without_stack_filter strategy stack_filter = stack_filter

  -- The set of the edge, put there if there is none, and the filter with it.
  unfoldable pub get_filtered_pts_of_edge_mut :
      StackFilter F C K Set → ℕ → StackFilter F C K Set × Set
  get_filtered_pts_of_edge_mut s edge_id =
      let pts = HashMap.get_or_default ℕ_discrete s.filtered_pts edge_id P.new in
      (record s { filtered_pts = HashMap.insert ℕ_discrete s.filtered_pts edge_id pts }, pts)

  unfoldable pub add_filtered_pts : StackFilter F C K Set → ℕ → ℕ → StackFilter F C K Set
  add_filtered_pts s edge_id filtered_pointee =
      let pts = HashMap.get_or_default ℕ_discrete s.filtered_pts edge_id P.new in
      record s {
        filtered_pts =
            HashMap.insert ℕ_discrete s.filtered_pts edge_id (P.insert pts filtered_pointee).0;
      }

  unfoldable pub add_pag_edge_in_func : StackFilter F C K Set → ℕ → F → StackFilter F C K Set
  add_pag_edge_in_func s edge_id func = record s {
    pag_edge_to_func = HashMap.insert ℕ_discrete s.pag_edge_to_func edge_id func;
  }

  unfoldable pub add_pag_edges_in_func : StackFilter F C K Set → List ℕ → F → StackFilter F C K Set
  unfolding add_pag_edge_in_func
  add_pag_edges_in_func s [] func = s
  add_pag_edges_in_func s (edge ∷ edges) func =
      add_pag_edges_in_func (add_pag_edge_in_func s edge func) edges func

  unfoldable pub get_container_func_of_edge : StackFilter F C K Set → ℕ → Option F
  get_container_func_of_edge s edge_id = HashMap.get ℕ_discrete s.pag_edge_to_func edge_id

  unfoldable pub collect_filtered_pts : StackFilter F C K Set → ℕ → ℕ → StackFilter F C K Set
  unfolding add_filtered_pts
  collect_filtered_pts s edge_id filtered_pointee =
      if s.collect_filtered_pts then add_filtered_pts s edge_id filtered_pointee else s

module _ {E : Type 0} (dec : Discrete E) where
  -- `iter().zip(v2).all(|(e1, e2)| e1 == e2)`
  unfoldable pub zip_equal : List E → List E → Bool
  zip_equal [] v2 = true
  zip_equal (e1 ∷ v1) [] = true
  zip_equal (e1 ∷ v1) (e2 ∷ v2) = same dec e1 e2 && zip_equal v1 v2

  -- `for i in i..i + count`
  unfoldable pub match_from : List E → List E → ℕ → ℕ → Bool
  unfolding zip_equal
  match_from v1 v2 i zero = false
  match_from v1 v2 i (suc count) =
      let rest = match_from v1 v2 (suc i) count in
      if zip_equal (drop (length v1 - i) v1) v2 then true else rest

  unfoldable pub match_suffix_and_prefix : List E → List E → Bool
  unfolding match_from
  match_suffix_and_prefix v1 v2 = match_from v1 v2 1 (min (length v1) (length v2))

module _ {S B : Type 0} (dec_s : Discrete S) (dec_b : Discrete B)
    (D : DiGraph (CallGraphNode ℕ) (CallGraphEdge S)) (V : ArrayVec ℕ chunk_cap)
    (P : PointsToSet) where
  -- `new`, where the parallel loop takes its rounds in the given order.
  unfoldable pub new :
      {F K : Type 0}
      → Cg ℕ_discrete dec_s dec_b D V
      → List ℕ
      → Option (StackFilter F (Cg ℕ_discrete dec_s dec_b D V) K P.Set)
  new call_graph order =
      Option.map
        (λ reach_relation. record {
          call_graph = call_graph;
          reach_relation = reach_relation;
          pag_edge_to_func = [];
          with_kcs_context = false;
          kcs_context_strategy = none;
          collect_filtered_pts = false;
          filtered_pts = [];
        })
        (compute_func_reach_relations_mt dec_s dec_b ℕ_discrete D V bit_row call_graph order)

  -- Both functions have their nodes: they are one, or the relation has them.
  unfoldable pub nodes_reachable :
      {F K : Type 0} → StackFilter F (Cg ℕ_discrete dec_s dec_b D V) K P.Set → ℕ → ℕ → Option Bool
  nodes_reachable s from to =
      Option.bind (HashMap.get ℕ_discrete s.call_graph.func_nodes from) (λ from_id.
        Option.bind (HashMap.get ℕ_discrete s.call_graph.func_nodes to) (λ to_id.
          if from_id == to_id
          then some true
          else is_reachable bit_row s.reach_relation from_id to_id))

  unfoldable pub naive_reachability_relation :
      {F K : Type 0}
      → (F → ℕ)
      → StackFilter F (Cg ℕ_discrete dec_s dec_b D V) K P.Set
      → F
      → F
      → Option Bool
  unfolding nodes_reachable
  naive_reachability_relation into s from to = nodes_reachable s (into from) (into to)

  -- `is_reachable_from` of `FuncId`: the function itself is the one that is to be reached.
  unfoldable pub is_reachable_from :
      {K : Type 0} → StackFilter ℕ (Cg ℕ_discrete dec_s dec_b D V) K P.Set → ℕ → ℕ → Option Bool
  unfolding naive_reachability_relation
  is_reachable_from s self from = naive_reachability_relation (λ f. f) s from self

  module _ {K Location : Type 0}
      (get_context_by_id : K → ℕ → Context (BaseCallSite ℕ Location)) where
    abbrev pub CsFilter : Type 0
    CsFilter = StackFilter CsFuncId (Cg ℕ_discrete dec_s dec_b D V) K P.Set

    -- `to_call_chain` and `from_call_chain`
    unfoldable pub call_chain : CsFuncId → Context (BaseCallSite ℕ Location) → List ℕ
    unfolding to_func_id
    call_chain func ctxt = to_func_id func ∷ map (λ callsite. callsite.func) ctxt.context_elems

    -- The node of the last call site's function, or else the function's own.
    unfoldable pub outermost : CsFuncId → Context (BaseCallSite ℕ Location) → ℕ
    unfolding to_func_id
    outermost func ctxt = elim (last_context_element ctxt) [
      | some last_callsite ↦ last_callsite.func
      | none ↦ to_func_id func
    ]

    unfoldable pub cs_is_reachable_from : CsFilter → CsFuncId → CsFuncId → Option Bool
    unfolding call_chain outermost nodes_reachable naive_reachability_relation
        match_suffix_and_prefix
    cs_is_reachable_from s self from =
        if s.with_kcs_context
        then Option.bind s.kcs_context_strategy (λ strategy.
          let from_ctxt = get_context_by_id strategy from.cid in
          let to_ctxt = get_context_by_id strategy self.cid in
          if ltb 0 (length from_ctxt.context_elems)
            && match_suffix_and_prefix ℕ_discrete (call_chain self to_ctxt)
                (call_chain from from_ctxt)
          then some true
          else nodes_reachable s (to_func_id from) (outermost self to_ctxt))
        else naive_reachability_relation to_func_id s from self

-- What `is_potentially_alive` asks of `AnalysisContext` about a function.
pub record FunctionInfo : Type 0 where
  pub is_promoted : ℕ → Bool
  pub is_const : ℕ → Bool

unfoldable pub is_heap_obj : {DefId Location : Type 0} → PathEnum DefId Location → Bool
is_heap_obj (heap_obj func_id location) = true
is_heap_obj _ = false

-- `matches!` on the path: a heap object, or a part of one.
unfoldable pub is_heap_path : {DefId Location : Type 0} → PathEnum DefId Location → Bool
unfolding is_heap_obj
is_heap_path (heap_obj func_id location) = true
is_heap_path (qualified_path base projection) = is_heap_obj base
is_heap_path (offset_path base offset) = is_heap_obj base
is_heap_path _ = false

-- `reachable` is `is_reachable_from` of the function type, and the path gives its value and the
-- function it is in.
unfoldable pub is_potentially_alive :
    {F DefId Location : Type 0}
    → Discrete F
    → (F → ℕ)
    → FunctionInfo
    → (F → F → Option Bool)
    → F
    → PathEnum DefId Location
    → Option F
    → Option Bool
unfolding is_heap_path
is_potentially_alive dec into acx reachable current_func value containing_func =
    if is_heap_path value then some true else elim containing_func [
      | none ↦ some true
      | some path_container_func ↦
          if same dec path_container_func current_func
          then some true
          else if acx.is_promoted (into path_container_func)
          then some true
          else if acx.is_const (into path_container_func)
          then some true
          else reachable current_func path_container_func
    ]
