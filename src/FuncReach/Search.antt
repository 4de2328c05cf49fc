-- ===== src/FuncReach/Search.antt =====
-- The search from one function: in its row of the relation, and in a row of its own.
use rupta_fork.Base.{
  ==_refl, ℕ, ◌<◌, ◌≡◌, ◌≢◌, ◌↔◌, refl, sym, ap, subst, ◌∙◌, Bool, true, false, ◌||◌, ◌&&◌, ◌==◌,
  Option, some, if◌then◌else◌, has, arith,
}
use mathlib.Core.Option
use mathlib.Core.Option.{some-injective}
use rupta_fork.ChunkedQueue.{ArrayVec, chunk_cap}
use rupta_fork.Reach.{RowRelation, ReachabilityRelation, is_reachable, add_reachable}
use rupta_fork.Reach.Relation.{
  IsValid, is_reachable-reads, add_reachable_lem, num_nodes-add_reachable,
}
use rupta_fork.CallGraph.{DiGraph, CallGraphNode, CallGraphEdge}
use rupta_fork.CallGraph.Edges.{InRange}
use rupta_fork.FuncReach.{rounds, compute_from, reachable_funcs}
use rupta_fork.FuncReach.Paths.{Reaches, call, over}
use rupta_fork.FuncReach.Loop.{Marks, search-Found}

-- The relation as a store of the nodes reached from `func`: it says what `base` says of the others.
module _ (R : RowRelation) (base : ReachabilityRelation R.Row) (func : ℕ) where
  pub record Elsewhere (r : ReachabilityRelation R.Row) : Type 0 where
    pub valid : IsValid R r
    pub size : r.num_nodes ≡ base.num_nodes
    pub same : (x y : ℕ) → x ≢ func → is_reachable R r x y ≡ is_reachable R base x y

  abbrev pub reached : ReachabilityRelation R.Row → ℕ → Bool
  reached r j = Option.get_or (is_reachable R r func j) false

  reached-some :
      (r : ReachabilityRelation R.Row) (j : ℕ)
      → IsValid R r
      → is_reachable R r func j ≡ some (reached r j)
  reached-some r j v =
      let h = is_reachable-reads R r v func j in h ∙ sym (ap (λ o. some (Option.get_or o false)) h)

  pub row_marks :
      (n : ℕ)
      → func < n
      → base.num_nodes ≡ n
      → Marks
          (ReachabilityRelation R.Row)
          (λ r. is_reachable R r func)
          (λ r. add_reachable R r func)
          n
  row_marks n lt e = record {
    IsStore = Elsewhere;
    reads = reached;
    contains-reads = λ s i st h. reached-some s i st.valid;
    insert-reads = λ s i st h.
        let (r, done, v, all) =
          add_reachable_lem R s func i st.valid (subst (λ k. func < k) (sym (st.size ∙ e)) lt)
            (subst (λ k. i < k) (sym (st.size ∙ e)) h) in
        (
          r,
          done,
          record {
            valid = v;
            size =
                num_nodes-add_reachable R s r func i st.valid
                  (subst (λ k. func < k) (sym (st.size ∙ e)) lt)
                  (subst (λ k. i < k) (sym (st.size ∙ e)) h) done
                ∙ st.size;
            same = λ x y ne. all x y ∙ ground (arith, ne, st.same x y ne);
          },
          λ j.
              ap (λ o. Option.get_or o false) (all func j)
              ∙ marked (j == i) (is_reachable R s func j),
        );
  }
    where
      marked :
          (b : Bool) (o : Option Bool)
          → Option.get_or (if func == func && b then some true else o) false
            ≡ (b || Option.get_or o false)
      marked true o = ground (arith, ==_refl func)
      marked false o = ground (arith, ==_refl func)

-- A row for the nodes below `n` as a store.
abbrev pub own_marks : (R : RowRelation) (n : ℕ) → Marks R.Row R.contains R.insert n
own_marks R n = record {
  IsStore = R.IsRow n;
  reads = R.reads;
  contains-reads = R.contains-reads n;
  insert-reads = λ row i st h. (
    R.written row i,
    R.insert-written n row i st h,
    R.written-IsRow n row i st h,
    λ j. R.reads-written n row i j st h,
  );
}

module _ {S B : Type 0} (dec_s : Discrete S) (dec_b : Discrete B) (dec_f : Discrete ℕ)
    (D : DiGraph (CallGraphNode ℕ) (CallGraphEdge S)) (V : ArrayVec ℕ chunk_cap) (R : RowRelation)
    (g : D.Graph) (r : InRange dec_f dec_s dec_b D V g) where
  caller-lt : (i j : ℕ) → has (D.neighbors g i) j ≡ true → i < D.node_count g
  caller-lt i j h =
      let (e, found) = (D.neighbors-ends g i j).0 h in
      subst (λ n. i < n) (sym (D.node_count-weights g)) (r e i j found).0

  neighbors-lt : (i j : ℕ) → has (D.neighbors g i) j ≡ true → j < D.node_count g
  neighbors-lt i j h =
      let (e, found) = (D.neighbors-ends g i j).0 h in
      subst (λ n. j < n) (sym (D.node_count-weights g)) (r e i j found).1

  pub Reaches-lt :
      (i j : ℕ) → Reaches (D.neighbors g) i j → (i < D.node_count g) × (j < D.node_count g)
  Reaches-lt i j (call h) = (caller-lt i j h, neighbors-lt i j h)
  Reaches-lt i j (over {c} p h) = ((Reaches-lt i c p).0, neighbors-lt c j h)

  pub reachable_funcs-Found :
      (func : ℕ)
      → (row : R.Row) × (reachable_funcs dec_s dec_b dec_f D V R g func ≡ some row)
        × R.IsRow (D.node_count g) row
        × ((j : ℕ) → (R.reads row j ≡ true) ↔ Reaches (D.neighbors g) func j)
  unfolding reachable_funcs rounds
  reachable_funcs-Found func =
      let (row, done, f) =
        search-Found R.contains R.insert (D.neighbors g) (D.node_count g)
          (own_marks R (D.node_count g)) func neighbors-lt (R.with_capacity (D.node_count g))
          (rounds (D.neighbors g) (D.node_count g) func) (R.with_capacity-IsRow (D.node_count g))
          (R.reads-with_capacity (D.node_count g)) (omega arith) in
      (row, done, f.store, f.exact)

  pub compute_from-Found :
      (func : ℕ) (base : ReachabilityRelation R.Row)
      → func < D.node_count g
      → base.num_nodes ≡ D.node_count g
      → IsValid R base
      → ((j : ℕ) → is_reachable R base func j ≡ some false)
      → (q : ReachabilityRelation R.Row) × (compute_from dec_s dec_b dec_f D V R func g base
          ≡ some q)
        × Elsewhere R base func q
        × ((j : ℕ) → (is_reachable R q func j ≡ some true) ↔ Reaches (D.neighbors g) func j)
  unfolding compute_from rounds row_marks
  compute_from-Found func base lt size v none_yet =
      let (q, done, f) =
        search-Found (λ r. is_reachable R r func) (λ r. add_reachable R r func) (D.neighbors g)
          (D.node_count g) (row_marks R base func (D.node_count g) lt size) func neighbors-lt base
          (rounds (D.neighbors g) (D.node_count g) func)
          (record { valid = v; size = refl; same = λ x y ne. refl })
          (λ j. ap (λ o. Option.get_or o false) (none_yet j)) (omega arith) in
      (
        q,
        done,
        f.store,
        λ j. (
          λ h. (f.exact j).0 (ap (λ o. Option.get_or o false) h),
          λ p. reached-some R base func q j f.store.valid ∙ ap some ((f.exact j).1 p),
        ),
      )
