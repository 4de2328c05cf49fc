-- ===== src/Propagator/Stops.antt =====
-- What the stack filter stops in the analysis without contexts.
use rupta_fork.Base.{
  ℕ, ◌≡◌, ◌↔◌, refl, sym, ap, List, Bool, true, false, not, Option, some, ℕ_discrete,
}
use rupta_fork.PtsSet.{PointsToSet}
use rupta_fork.ChunkedQueue.{ArrayVec, chunk_cap}
use rupta_fork.CallGraph.{DiGraph, CallGraphNode, CallGraphEdge}
use rupta_fork.MirPath.{PathEnum}
use rupta_fork.MirPath.Project.{get_containing_func}
use rupta_fork.StackFilter.{
  FunctionInfo, get_container_func_of_edge, is_reachable_from, naive_reachability_relation,
  nodes_reachable,
}
use rupta_fork.StackFilter.Naive.{Filter, IsFiltered, node_of}
use rupta_fork.StackFilter.Filter.{IsExcluded, is_potentially_alive_lem}
use rupta_fork.Propagator.{EdgeFilter}
use rupta_fork.Propagator.Filters.{stack_filter_pred, edge_filter}

module _ {S B : Type 0} (dec_s : Discrete S) (dec_b : Discrete B)
    (D : DiGraph (CallGraphNode ℕ) (CallGraphEdge S)) (V : ArrayVec ℕ chunk_cap) (P : PointsToSet)
    {K DefId Location X : Type 0} (acx : FunctionInfo) (value : X → PathEnum DefId Location) where
  abbrev reachable : Filter dec_s dec_b D V P ℕ K → ℕ → ℕ → Option Bool
  reachable s = is_reachable_from dec_s dec_b D V P s

  pub reachable-unread :
      (s : Filter dec_s dec_b D V P ℕ K) (pts : List (ℕ × P.Set))
      → reachable (record s { filtered_pts = pts }) ≡ reachable s
  unfolding is_reachable_from naive_reachability_relation nodes_reachable
  reachable-unread s pts = refl

  -- The stack filter of the analysis without contexts.
  unfoldable pub func_filter : EdgeFilter X (Option (Filter dec_s dec_b D V P ℕ K))
  unfolding edge_filter stack_filter_pred
  func_filter =
      edge_filter ℕ_discrete P (λ f. f) acx true reachable value
        (λ p. get_containing_func (value p)) reachable-unread

  module _ (s : Filter dec_s dec_b D V P ℕ K) (v : IsFiltered dec_s dec_b D V P s) (edge func i : ℕ)
      (path : X) where
    pub stack_filter_pred-stops :
        get_container_func_of_edge P s edge ≡ some func
        → node_of dec_s dec_b D V P s func ≡ some i
        → ((g : ℕ)
            → get_containing_func (value path) ≡ some g
            → (j : ℕ) × (node_of dec_s dec_b D V P s g ≡ some j))
        → (b : Bool) × (func_filter.stack_filter_pred (some s) edge path ≡ some b)
          × ((b ≡ true) ↔ IsExcluded dec_s dec_b D V P acx s func i (value path))
    unfolding func_filter edge_filter stack_filter_pred
    stack_filter_pred-stops inside here known =
        let (b, answers) =
          is_potentially_alive_lem dec_s dec_b D V P acx s func i (value path) v here known in
        (
          not b,
          rw inside (rw answers.0 refl),
          ((λ h. answers.1.0 (turned b h)), λ x. ap not (answers.1.1 x)),
        )
      where
        turned : (b : Bool) → not b ≡ true → b ≡ false
        turned true h = sym h
        turned false h = refl
