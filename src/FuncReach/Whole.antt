-- ===== src/FuncReach/Whole.antt =====
-- The sequential computation, over the queue of the functions, and its agreement with the parallel.
use rupta_fork.Base.{
  ℕ, zero, suc, ◌+◌, ◌<◌, ◌≤◌, ◌≡◌, ◌↔◌, refl, sym, ap, subst, ◌∙◌, List, [], ◌∷◌, Bool, true,
  false, ◌&&◌, Option, some, length, get_elem?, has, arith, ℕ_discrete, dec_lt,
}
use mathlib.Core.Option
use mathlib.Core.Option.{none-ne-some, some-injective}
use mathlib.Core.Bool.{false≢true}
use rupta_fork.ChunkedQueue.{ArrayVec, chunk_cap}
use rupta_fork.Reach.{RowRelation, ReachabilityRelation, is_reachable, add_reachable}
use rupta_fork.Reach.Relation.{IsValid, is_reachable-reads}
use rupta_fork.CallGraph.{DiGraph, CallGraphNode, CallGraphEdge}
use rupta_fork.Base.{ltb, get_or, Bool_ext, map}
use rupta_fork.Base.HashMap
use rupta_fork.ChunkedQueue.Chain.{contents}
use rupta_fork.ChunkedQueue.Growing.{drain, drain-iter_copied}
use rupta_fork.ChunkedQueue
use rupta_fork.CallGraph.{Cg, reach_funcs_iter, new_node}
use rupta_fork.CallGraph.Nodes
use rupta_fork.Reach
use rupta_fork.Reach.Relation.{new-IsValid, is_reachable-new}
use rupta_fork.FuncReach.{
  compute_each, compute_func_reach_relations, compute_func_reach_relations_mt,
}
use rupta_fork.FuncReach.Paths.{Reaches}
use rupta_fork.FuncReach.Search.{Reaches-lt, compute_from-Found}
use rupta_fork.FuncReach.Parallel.{IsReach, compute_func_reach_relations_mt-IsReach}

module _ {S B : Type 0} (dec_s : Discrete S) (dec_b : Discrete B) (dec_f : Discrete ℕ)
    (D : DiGraph (CallGraphNode ℕ) (CallGraphEdge S)) (V : ArrayVec ℕ chunk_cap) (R : RowRelation)
    (cg : Cg dec_f dec_s dec_b D V) (v : Nodes.IsValid dec_f dec_s dec_b D V cg) where
  -- The rows of the nodes below `k` are complete, and the others empty.
  record Upto (k : ℕ) (q : ReachabilityRelation R.Row) : Type 0 where
    valid : IsValid R q
    size : q.num_nodes ≡ D.node_count cg.graph
    before :
        (i j : ℕ) → i < k → (is_reachable R q i j ≡ some true) ↔ Reaches (D.neighbors cg.graph) i j
    after : (i j : ℕ) → k ≤ i → is_reachable R q i j ≡ some false

  compute_each-Upto :
      (funcs : List ℕ) (k : ℕ) (q : ReachabilityRelation R.Row)
      → Upto k q
      → k + length funcs ≡ D.node_count cg.graph
      → ((i f : ℕ) → get_elem? funcs i ≡ some f → HashMap.get dec_f cg.func_nodes f ≡ some (k + i))
      → (r : ReachabilityRelation R.Row) × (compute_each dec_s dec_b dec_f D V R cg funcs q
          ≡ some r)
        × Upto (D.node_count cg.graph) r
  unfolding compute_each Option.bind
  compute_each-Upto [] k q u total numbered =
      (q, refl, subst (λ n. Upto n q) (omega (arith, total)) u)
  compute_each-Upto (f ∷ funcs) k q u total numbered =
      let lt : k < D.node_count cg.graph = omega (arith, total) in
      let (r, done, e, exact) =
        compute_from-Found dec_s dec_b dec_f D V R cg.graph v.in_range k q lt u.size u.valid
          (λ j. u.after k j (omega arith)) in
      let w : Upto (suc k) r = record {
        valid = e.valid;
        size = e.size ∙ u.size;
        before = λ i j h. elim (ℕ_discrete i k) [
          | yes same ↦
              subst (λ x. (is_reachable R r x j ≡ some true) ↔ Reaches (D.neighbors cg.graph) x j)
                (sym same) (exact j)
          | no ne ↦
              subst (λ o. (o ≡ some true) ↔ Reaches (D.neighbors cg.graph) i j)
                (sym (e.same i j ne)) (u.before i j (omega arith))
        ];
        after = λ i j h. e.same i j (λ same. omega arith) ∙ u.after i j (omega arith);
      } in
      let (s, rest, all) =
        compute_each-Upto funcs (suc k) r w (omega (arith, total))
          (λ i g h. numbered (suc i) g h ∙ ap some (omega arith)) in
      (s, rw (numbered 0 f refl ∙ ap some (zero_right k), compute_each) (rw done rest), all)
    where
      zero_right : (k : ℕ) → k + 0 ≡ k
      zero_right k = omega arith

  get_elem?-map :
      (fs : List ℕ) (i f : ℕ)
      → get_elem? fs i ≡ some f
      → get_elem? (map new_node fs) i ≡ some (new_node f)
  get_elem?-map [] i f h = absurd (none-ne-some f h)
  get_elem?-map (x ∷ fs) zero f h = ap (λ y. some (new_node y)) (some-injective x f h)
  get_elem?-map (x ∷ fs) (suc i) f h = get_elem?-map fs i f h

  length-map : (fs : List ℕ) → length (map new_node fs) ≡ length fs
  length-map [] = refl
  length-map (x ∷ fs) = ap suc (length-map fs)

  -- For a valid call graph, `compute_func_reach_relations` ends without a panic, with a
  -- relation of one row for each node that holds of a pair of nodes exactly when the first
  -- leads to the second over one call or more.
  pub compute_func_reach_relations-IsReach :
      (q : ReachabilityRelation R.Row) × (compute_func_reach_relations dec_s dec_b dec_f D V R cg
        ≡ some q)
      × IsReach dec_s dec_b dec_f D V R cg.graph q
  unfolding compute_func_reach_relations reach_funcs_iter Reach.new
  compute_func_reach_relations-IsReach =
      let funcs = contents V cg.reach_funcs.chunks in
      let count : length funcs ≡ D.node_count cg.graph =
        sym (length-map funcs) ∙ ap length v.order ∙ sym (D.node_count-weights cg.graph) in
      let (q, done, u) =
        compute_each-Upto funcs 0 (Reach.new R (D.node_count cg.graph))
          (record {
            valid = new-IsValid R (D.node_count cg.graph);
            size = refl;
            before = λ i j h. absurd (omega arith);
            after = λ i j h. is_reachable-new R (D.node_count cg.graph) i j;
          })
          (omega (arith, count))
          (λ i f h.
            v.known f i (ap (λ ns. get_elem? ns i) (sym v.order) ∙ get_elem?-map funcs i f h)
            ∙ ap some (omega arith)) in
      (
        q,
        ap (λ fs. compute_each dec_s dec_b dec_f D V R cg fs (Reach.new R (D.node_count cg.graph)))
              (ap (λ n. drain V cg.reach_funcs (suc n) (ChunkedQueue.iter_copied V cg.reach_funcs))
                  v.queue.counted
                ∙ drain-iter_copied V cg.reach_funcs v.queue)
            ∙ done,
        record {
          valid = u.valid;
          size = u.size;
          exact = λ i j. elim (dec_lt i (D.node_count cg.graph)) [
            | yes lt ↦ u.before i j lt
            | no ge ↦ (
              λ t.
                  absurd
                    (false≢true (some-injective false true (sym (u.after i j (omega arith)) ∙ t))),
              λ p. absurd (ge (Reaches-lt dec_s dec_b dec_f D V R cg.graph v.in_range i j p).0),
            )
          ];
        },
      )

  -- For a valid call graph, and any order in which the parallel loop takes rounds that are
  -- exactly the nodes, the sequential and the parallel computation both end without a panic,
  -- and their relations answer every query alike.
  pub compute_func_reach_relations-agrees :
      (order : List ℕ)
      → ((i : ℕ) → (has order i ≡ true) ↔ (i < D.node_count cg.graph))
      → (q : ReachabilityRelation R.Row) × (r : ReachabilityRelation R.Row)
        × (compute_func_reach_relations dec_s dec_b dec_f D V R cg ≡ some q)
        × (compute_func_reach_relations_mt dec_s dec_b dec_f D V R cg order ≡ some r)
        × ((i j : ℕ) → is_reachable R q i j ≡ is_reachable R r i j)
  compute_func_reach_relations-agrees order whole =
      let (q, done, x) = compute_func_reach_relations-IsReach in
      let (r, done', y) =
        compute_func_reach_relations_mt-IsReach dec_s dec_b dec_f D V R cg order v.in_range whole in
      (
        q,
        r,
        done,
        done',
        λ i j.
            agree (is_reachable R q i j) (is_reachable R r i j)
              (ltb i q.num_nodes
                && ltb j q.num_nodes
                && R.reads (get_or q.relation_matrix i (R.with_capacity q.num_nodes)) j)
              (ltb i r.num_nodes
                && ltb j r.num_nodes
                && R.reads (get_or r.relation_matrix i (R.with_capacity r.num_nodes)) j)
              (Reaches (D.neighbors cg.graph) i j) (is_reachable-reads R q x.valid i j)
              (is_reachable-reads R r y.valid i j) (x.exact i j) (y.exact i j),
      )
    where
      agree :
          (o p : Option Bool) (a b : Bool) (P : Type 0)
          → o ≡ some a
          → p ≡ some b
          → (o ≡ some true) ↔ P
          → (p ≡ some true) ↔ P
          → o ≡ p
      agree o p a b P ea eb (f, g) (h, k) =
          ea
          ∙ ap some (
              Bool_ext a b (λ t. some-injective b true (sym eb ∙ k (f (ea ∙ ap some t))))
                (λ t. some-injective a true (sym ea ∙ g (h (eb ∙ ap some t)))))
          ∙ sym eb
