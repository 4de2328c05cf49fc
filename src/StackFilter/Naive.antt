-- ===== src/StackFilter/Naive.antt =====
-- `StackFilter::new` and the relation between functions that it asks: whether one is the other or
-- leads to it by calls.
use rupta_fork.Base.{
  ℕ, ◌<◌, ◌==◌, ◌≡◌, ◌≢◌, ◌↔◌, ◌⊎◌, inl, inr, refl, sym, ap, ◌∙◌, List, [], Bool, true, false,
  Option, none, some, if◌then◌else◌, has, arith, ℕ_discrete, Option-cases,
}
use mathlib.Core.Option
use mathlib.Core.Option.{none-ne-some, some-injective}
use rupta_fork.Base.HashMap
use rupta_fork.PtsSet.{PointsToSet}
use rupta_fork.ChunkedQueue.{ArrayVec, chunk_cap}
use rupta_fork.Reach.{is_reachable}
use rupta_fork.Reach.Rows.{bit_row}
use rupta_fork.Reach.Relation.{is_reachable-reads}
use rupta_fork.CallGraph.{DiGraph, CallGraphNode, CallGraphEdge, Cg}
use rupta_fork.CallGraph.Nodes
use rupta_fork.FuncReach.Paths.{Reaches}
use rupta_fork.FuncReach.Parallel.{IsReach, compute_func_reach_relations_mt-IsReach}
use rupta_fork.StackFilter.{StackFilter, new, nodes_reachable}

module _ {S B : Type 0} (dec_s : Discrete S) (dec_b : Discrete B)
    (D : DiGraph (CallGraphNode ℕ) (CallGraphEdge S)) (V : ArrayVec ℕ chunk_cap)
    (P : PointsToSet) where
  abbrev pub Filter : Type 0 → Type 0 → Type 0
  Filter F K = StackFilter F (Cg ℕ_discrete dec_s dec_b D V) K P.Set

module _ {S B : Type 0} (dec_s : Discrete S) (dec_b : Discrete B)
    (D : DiGraph (CallGraphNode ℕ) (CallGraphEdge S)) (V : ArrayVec ℕ chunk_cap) (P : PointsToSet)
    {F K : Type 0} where
  -- The relation is that of the call graph.
  pub record IsFiltered (s : Filter dec_s dec_b D V P F K) : Type 0 where
    pub graph : Nodes.IsValid ℕ_discrete dec_s dec_b D V s.call_graph
    pub relation : IsReach dec_s dec_b ℕ_discrete D V bit_row s.call_graph.graph s.reach_relation

  -- The function's node.
  abbrev pub node_of : Filter dec_s dec_b D V P F K → ℕ → Option ℕ
  node_of s func = HashMap.get ℕ_discrete s.call_graph.func_nodes func

  -- Node `i` is node `j` or leads to it by calls.
  abbrev pub Leads : Filter dec_s dec_b D V P F K → ℕ → ℕ → Type 0
  Leads s i j = (i ≡ j) ⊎ Reaches (D.neighbors s.call_graph.graph) i j

  -- For a valid call graph, and any order of the parallel loop that takes exactly the nodes,
  -- `new` does not panic, keeps the call graph, and holds the relation of it: a pair of nodes
  -- exactly when the first leads to the second over one call or more.
  pub new-IsFiltered :
      (cg : Cg ℕ_discrete dec_s dec_b D V) (order : List ℕ)
      → Nodes.IsValid ℕ_discrete dec_s dec_b D V cg
      → ((i : ℕ) → (has order i ≡ true) ↔ (i < D.node_count cg.graph))
      → (s : Filter dec_s dec_b D V P F K) × (new dec_s dec_b D V P cg order ≡ some s)
        × (s.call_graph ≡ cg)
        × IsFiltered s
  unfolding new
  new-IsFiltered cg order v whole =
      let (r, done, y) =
        compute_func_reach_relations_mt-IsReach dec_s dec_b ℕ_discrete D V bit_row cg order
          v.in_range whole in
      (
        record {
          call_graph = cg;
          reach_relation = r;
          pag_edge_to_func = [];
          with_kcs_context = false;
          kcs_context_strategy = none;
          collect_filtered_pts = false;
          filtered_pts = [];
        },
        rw done refl,
        refl,
        record { graph = v; relation = y },
      )

  module _ (s : Filter dec_s dec_b D V P F K) (v : IsFiltered s) (from to : ℕ) where
    nodes_reachable_found :
        (i j : ℕ)
        → node_of s from ≡ some i
        → node_of s to ≡ some j
        → nodes_reachable dec_s dec_b D V P s from to
          ≡ (if i == j then some true else is_reachable bit_row s.reach_relation i j)
    unfolding nodes_reachable Option.bind
    nodes_reachable_found i j hi hj = rw (hi, nodes_reachable) (rw hj refl)

    pub nodes_reachable-Leads :
        (i j : ℕ)
        → node_of s from ≡ some i
        → node_of s to ≡ some j
        → (b : Bool) × (nodes_reachable dec_s dec_b D V P s from to ≡ some b)
          × ((b ≡ true) ↔ Leads s i j)
    nodes_reachable-Leads i j hi hj =
        let run = nodes_reachable_found i j hi hj in
        elim (ℕ_discrete i j) [
          | yes same ↦ (
            true,
            run ∙ together i j (is_reachable bit_row s.reach_relation i j) same,
            ((λ _. inl same), (λ _. refl)),
          )
          | no other ↦
              let asked = is_reachable-reads bit_row s.reach_relation v.relation.valid i j in
              (
                _,
                run ∙ apart i j (is_reachable bit_row s.reach_relation i j) other ∙ asked,
                (
                  (λ t. inr ((v.relation.exact i j).0 (asked ∙ ap some t))),
                  (λ l. elim l [
                    | inl same ↦ absurd (other same)
                    | inr path ↦ some-injective _ true (sym asked ∙ (v.relation.exact i j).1 path)
                  ]),
                ),
              )
        ]
      where
        apart : (i j : ℕ) (o : Option Bool) → i ≢ j → (if i == j then some true else o) ≡ o
        apart i j o ne = ground arith

        together :
            (i j : ℕ) (o : Option Bool) → i ≡ j → (if i == j then some true else o) ≡ some true
        together i j o e = ground arith

    -- On a stack filter whose relation is that of its valid call graph, the test between
    -- two functions panics exactly when one of them has no node in the call graph.
    pub nodes_reachable-none :
        (nodes_reachable dec_s dec_b D V P s from to ≡ none)
        ↔ ((node_of s from ≡ none) ⊎ (node_of s to ≡ none))
    unfolding nodes_reachable Option.bind
    nodes_reachable-none = elim (Option-cases (node_of s from)) [
      | inl missing ↦ ((λ _. inl missing), (λ _. rw (missing, nodes_reachable) refl))
      | inr (i, hi) ↦ elim (Option-cases (node_of s to)) [
        | inl missing ↦ ((λ _. inr missing), (λ _. rw (hi, nodes_reachable) (rw missing refl)))
        | inr (j, hj) ↦
            let (b, run, _) = nodes_reachable-Leads i j hi hj in
            (
              (λ h. absurd (none-ne-some b (sym h ∙ run))),
              (λ h. elim h [
                | inl gone ↦ absurd (none-ne-some i (sym gone ∙ hi))
                | inr gone ↦ absurd (none-ne-some j (sym gone ∙ hj))
              ]),
            )
      ]
    ]
