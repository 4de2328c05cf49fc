-- ===== src/StackFilter/Chains.antt =====
-- `is_reachable_from` of src/pta/strategies/stack_filtering.rs for functions with a context of call
-- sites: by their call chains, or by the relation between functions.
use rupta_fork.Base.{
  ℕ, ◌<◌, ◌≡◌, ◌↔◌, ◌⊎◌, inl, inr, refl, List, Bool, true, false, ◌&&◌, some, ltb, length, arith,
  ℕ_discrete, Bool-cases,
}
use mathlib.Core.Option
use rupta_fork.PtsSet.{PointsToSet}
use rupta_fork.Context.{Context}
use rupta_fork.CallSite.{CsFuncId, BaseCallSite, to_func_id}
use rupta_fork.ChunkedQueue.{ArrayVec, chunk_cap}
use rupta_fork.CallGraph.{DiGraph, CallGraphNode, CallGraphEdge}
use rupta_fork.StackFilter.{
  call_chain, outermost, match_suffix_and_prefix, naive_reachability_relation, cs_is_reachable_from,
}
use rupta_fork.StackFilter.Match.{Overlaps, match_suffix_and_prefix_iff}
use rupta_fork.StackFilter.Naive.{Filter, IsFiltered, node_of, Leads, nodes_reachable-Leads}

module _ {S B : Type 0} (dec_s : Discrete S) (dec_b : Discrete B)
    (D : DiGraph (CallGraphNode ℕ) (CallGraphEdge S)) (V : ArrayVec ℕ chunk_cap) (P : PointsToSet)
    {K Location : Type 0} (get_context_by_id : K → ℕ → Context (BaseCallSite ℕ Location))
    (s : Filter dec_s dec_b D V P CsFuncId K) where
  -- The chain of functions that the context of `func` names, `func` first.
  abbrev pub chain_of : K → CsFuncId → List ℕ
  chain_of strategy func =
      call_chain dec_s dec_b D V P get_context_by_id func (get_context_by_id strategy func.cid)

  abbrev pub outermost_of : K → CsFuncId → ℕ
  outermost_of strategy func =
      outermost dec_s dec_b D V P get_context_by_id func (get_context_by_id strategy func.cid)

  -- The chain of `from` is not cut at `from` itself, and the two chains fit together.
  abbrev pub Fits : K → CsFuncId → CsFuncId → Type 0
  Fits strategy self from =
      (0 < length (get_context_by_id strategy from.cid).context_elems)
      × Overlaps (chain_of strategy self) (chain_of strategy from)

  module _ (v : IsFiltered dec_s dec_b D V P s) (self from : CsFuncId) (i k : ℕ)
      (from_node : node_of dec_s dec_b D V P s (to_func_id from) ≡ some i) where
    -- With a strategy of call sites, on a stack filter whose relation is that of its valid
    -- call graph, where the calling function has a node and so has the outermost function
    -- of the called one's chain, `is_reachable_from` does not panic, and answers yes
    -- exactly when the caller has a context that is not empty and a suffix of the callee's
    -- chain is a prefix of the caller's, or the caller's node is the outermost function's
    -- or leads to it by calls.
    pub cs_is_reachable_from-chains :
        (strategy : K)
        → s.with_kcs_context ≡ true
        → s.kcs_context_strategy ≡ some strategy
        → node_of dec_s dec_b D V P s (outermost_of strategy self) ≡ some k
        → (b : Bool) × (cs_is_reachable_from dec_s dec_b D V P get_context_by_id s self from
            ≡ some b)
          × ((b ≡ true) ↔ (Fits strategy self from ⊎ Leads dec_s dec_b D V P s i k))
    unfolding cs_is_reachable_from Option.bind
    cs_is_reachable_from-chains strategy kcs given to_node =
        let deep = ltb 0 (length (get_context_by_id strategy from.cid).context_elems) in
        let fit =
          match_suffix_and_prefix ℕ_discrete (chain_of strategy self) (chain_of strategy from) in
        let same =
          match_suffix_and_prefix_iff ℕ_discrete (chain_of strategy self)
            (chain_of strategy from) in
        let (b, run, leads) =
          nodes_reachable-Leads dec_s dec_b D V P s v (to_func_id from) (outermost_of strategy self)
            i k from_node to_node in
        elim (Bool-cases (deep && fit)) [
          | inl both ↦ (
            true,
            rw (kcs, cs_is_reachable_from) (rw given (rw both refl)),
            ((λ _. inl (ground arith, same.0 (ground arith))), (λ _. refl)),
          )
          | inr unfit ↦ (
            b,
            rw (kcs, cs_is_reachable_from) (rw given (rw unfit run)),
            (
              (λ t. inr (leads.0 t)),
              (λ h. elim h [
                | inl (lt, o) ↦ let m = same.1 o in absurd (ground arith)
                | inr l ↦ leads.1 l
              ]),
            ),
          )
        ]

    -- Without contexts it is the relation between the two functions.
    pub cs_is_reachable_from-plain :
        s.with_kcs_context ≡ false
        → node_of dec_s dec_b D V P s (to_func_id self) ≡ some k
        → (b : Bool) × (cs_is_reachable_from dec_s dec_b D V P get_context_by_id s self from
            ≡ some b)
          × ((b ≡ true) ↔ Leads dec_s dec_b D V P s i k)
    unfolding cs_is_reachable_from naive_reachability_relation
    cs_is_reachable_from-plain kcs to_node =
        let (b, run, leads) =
          nodes_reachable-Leads dec_s dec_b D V P s v (to_func_id from) (to_func_id self) i k
            from_node to_node in
        (b, rw (kcs, cs_is_reachable_from) run, leads)
