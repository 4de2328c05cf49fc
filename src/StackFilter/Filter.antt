-- ===== src/StackFilter/Filter.antt =====
-- `is_potentially_alive` of src/pta/strategies/stack_filtering.rs for functions without a context:
-- what it takes for an object to be filtered out.
use rupta_fork.Base.{
  ℕ, ◌≡◌, ◌≢◌, ◌↔◌, inl, inr, refl, sym, ap, subst, ◌∙◌, Bool, true, false, Option, some, arith,
  ℕ_discrete, Option-cases, Bool-cases,
}
use mathlib.Core.Bool.{false≢true}
use mathlib.Core.Option.{none-ne-some, some-injective}
use rupta_fork.PtsSet.{PointsToSet}
use rupta_fork.MirPath.{PathEnum}
use rupta_fork.MirPath.Project.{get_containing_func}
use rupta_fork.ChunkedQueue.{ArrayVec, chunk_cap}
use rupta_fork.CallGraph.{DiGraph, CallGraphNode, CallGraphEdge}
use rupta_fork.StackFilter.{
  FunctionInfo, naive_reachability_relation, is_reachable_from, is_heap_path, is_potentially_alive,
}
use rupta_fork.StackFilter.Naive.{Filter, IsFiltered, node_of, Leads, nodes_reachable-Leads}

module _ {S B : Type 0} (dec_s : Discrete S) (dec_b : Discrete B)
    (D : DiGraph (CallGraphNode ℕ) (CallGraphEdge S)) (V : ArrayVec ℕ chunk_cap) (P : PointsToSet)
    {K DefId Location : Type 0} (acx : FunctionInfo) (s : Filter dec_s dec_b D V P ℕ K)
    (current_func i : ℕ) (value : PathEnum DefId Location) where
  -- The object is filtered out: it is not on the heap, and its function is another one, neither
  -- promoted nor a constant, that does not lead to the current function by calls.
  pub record IsExcluded : Type 0 where
    pub in_frame : is_heap_path value ≡ false
    pub owner : ℕ
    pub owned : get_containing_func value ≡ some owner
    pub other : owner ≢ current_func
    pub runs : acx.is_promoted owner ≡ false
    pub variable : acx.is_const owner ≡ false
    pub uncalled :
        (j : ℕ) → node_of dec_s dec_b D V P s owner ≡ some j → ¬ Leads dec_s dec_b D V P s j i

  -- The whole test, as the analysis without contexts makes it.
  abbrev pub alive : Option Bool
  alive =
      is_potentially_alive ℕ_discrete (λ f. f) acx (is_reachable_from dec_s dec_b D V P s)
        current_func value (get_containing_func value)

  -- An answer and what it is to mean.
  abbrev pub Answers : Bool → Type 0
  Answers b = (alive ≡ some b) × ((b ≡ false) ↔ IsExcluded)

  kept : alive ≡ some true → (IsExcluded → ⊥) → (b : Bool) × Answers b
  kept run no_way = (true, (run, ((λ e. absurd (false≢true (sym e))), (λ x. absurd (no_way x)))))

  module _ (v : IsFiltered dec_s dec_b D V P s)
      (here : node_of dec_s dec_b D V P s current_func ≡ some i) where
    asked :
        (g j : ℕ)
        → is_heap_path value ≡ false
        → get_containing_func value ≡ some g
        → g ≢ current_func
        → acx.is_promoted g ≡ false
        → acx.is_const g ≡ false
        → node_of dec_s dec_b D V P s g ≡ some j
        → (b : Bool) × Answers b
    unfolding is_potentially_alive is_reachable_from naive_reachability_relation
    asked g j stack owned ne promoted const there =
        let (b, run, leads) =
          nodes_reachable-Leads dec_s dec_b D V P s v g current_func j i there here in
        (
          b,
          (
            ground (arith, owned, run),
            (
              (λ e. record {
                in_frame = stack;
                owner = g;
                owned = owned;
                other = ne;
                runs = promoted;
                variable = const;
                uncalled = λ k at l. false≢true (
                    sym e
                    ∙ leads.1 (
                        subst (λ n. Leads dec_s dec_b D V P s n i)
                          (some-injective k j (sym at ∙ there)) l));
              }),
              (λ x.
                  let same : x.owner ≡ g = some-injective x.owner g (sym x.owned ∙ owned) in
                  refuted b (λ t.
                    x.uncalled j (ap (node_of dec_s dec_b D V P s) same ∙ there) (leads.0 t))),
            ),
          ),
        )
      where
        refuted : (b : Bool) → (b ≡ true → ⊥) → b ≡ false
        refuted true h = absurd (h refl)
        refuted false h = refl

    -- In the analysis without contexts, on a stack filter whose relation is that of its
    -- valid call graph, with a node for the current function and for the function that the
    -- path is in, if it is in one, `is_potentially_alive` does not panic, and answers no
    -- exactly when the path is neither a heap object nor a projection or offset of one, is
    -- in a function other than the current one, neither promoted nor a constant, and that
    -- function does not lead to the current one by calls.
    pub is_potentially_alive_lem :
        ((g : ℕ)
          → get_containing_func value ≡ some g
          → (j : ℕ) × (node_of dec_s dec_b D V P s g ≡ some j))
        → (b : Bool) × Answers b
    unfolding is_potentially_alive
    is_potentially_alive_lem known = elim (Bool-cases (is_heap_path value)) [
      | inl heap ↦ kept (ground arith) (λ x. false≢true (sym x.in_frame ∙ heap))
      | inr stack ↦ elim (Option-cases (get_containing_func value)) [
        | inl nowhere ↦
            kept (ground (arith, nowhere)) (λ x. none-ne-some x.owner (sym nowhere ∙ x.owned))
        | inr (g, owned) ↦
            let mine = λ (x : IsExcluded). some-injective x.owner g (sym x.owned ∙ owned) in
            elim (ℕ_discrete g current_func) [
              | yes same ↦ kept (ground (arith, owned)) (λ x. x.other (mine x ∙ same))
              | no ne ↦ elim (Bool-cases (acx.is_promoted g)) [
                | inl promoted ↦
                    kept (ground (arith, owned))
                      (λ x. false≢true (sym x.runs ∙ ap acx.is_promoted (mine x) ∙ promoted))
                | inr runs ↦ elim (Bool-cases (acx.is_const g)) [
                  | inl const ↦
                      kept (ground (arith, owned))
                        (λ x. false≢true (sym x.variable ∙ ap acx.is_const (mine x) ∙ const))
                  | inr plain ↦
                      let (j, there) = known g owned in asked g j stack owned ne runs plain there
                ]
              ]
            ]
      ]
    ]
