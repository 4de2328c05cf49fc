-- ===== src/CallGraph/AddEdge.antt =====
-- `add_edge`: the whole of it, against the set of the calls.
use rupta_fork.Base.{
  ℕ, ◌≡◌, inl, inr, refl, sym, ap, ap₂, ◌∙◌, List, [], ◌∷◌, ◌++◌, Bool, true, false, not, ◌||◌,
  ◌&&◌, some, if◌then◌else◌, Bool-cases, get_elem?-lt,
}
use mathlib.Core.Option
use mathlib.Core.Option.{none-ne-some, some-injective}
use rupta_fork.Base.HashMap
use rupta_fork.Base.HashSet
use rupta_fork.ChunkedQueue.{ArrayVec, ChunkedQueue, chunk_cap}
use rupta_fork.CallGraph.{
  DiGraph, CallGraphNode, CallGraphEdge, Cg, new_node, new_edge, get_or_insert_node, get_callees,
  connect, add_edge,
}
use rupta_fork.ChunkedQueue.Chain.{contents}
use rupta_fork.CallGraph.Nodes.{IsValid, add_node-get_or_insert_node}
use rupta_fork.CallGraph.Calls.{calls, get_callees-calls, calls-Noded}
use rupta_fork.CallGraph.Connect.{connect-Connects}
use rupta_fork.CallGraph.Funcs.{with_func}

if_true : {A : Type 0} (c : Bool) (t e : A) → c ≡ true → t ≡ (if c then t else e)
if_true c t e h = rw h refl

if_false : {A : Type 0} (c : Bool) (t e : A) → c ≡ false → e ≡ (if c then t else e)
if_false c t e h = rw h refl

module _ {F S B : Type 0} (dec_f : Discrete F) (dec_s : Discrete S) (dec_b : Discrete B)
    (D : DiGraph (CallGraphNode F) (CallGraphEdge S)) (V : ArrayVec F chunk_cap) where
  module _ (cg : Cg dec_f dec_s dec_b D V) (v : IsValid dec_f dec_s dec_b D V cg) (s : S)
      (a b : F) where
    -- What `add_edge` is to do.
    pub record Adds (r : Cg dec_f dec_s dec_b D V) : Type 0 where
      pub valid : IsValid dec_f dec_s dec_b D V r
      pub caller : ℕ
      pub callee : ℕ
      pub caller_node : HashMap.get dec_f r.func_nodes a ≡ some caller
      pub callee_node : HashMap.get dec_f r.func_nodes b ≡ some callee
      pub ends : D.ends r.graph ≡ (
          if calls dec_f dec_s dec_b D V cg s b
          then D.ends cg.graph
          else D.ends cg.graph ++ (caller, callee) ∷ [])
      pub labels : D.labels r.graph ≡ (
          if calls dec_f dec_s dec_b D V cg s b
          then D.labels cg.graph
          else D.labels cg.graph ++ new_edge s ∷ [])
      pub called :
          (t : S) (f : F)
          → calls dec_f dec_s dec_b D V r t f ≡ (
              HashSet.same dec_s s t && HashSet.same dec_f b f
              || calls dec_f dec_s dec_b D V cg t f)
      pub kept :
          (f : F) (k : ℕ)
          → HashMap.get dec_f cg.func_nodes f ≡ some k
          → HashMap.get dec_f r.func_nodes f ≡ some k
      pub funcs :
          contents V r.reach_funcs.chunks
          ≡ with_func dec_f (with_func dec_f (contents V cg.reach_funcs.chunks) a) b

    absorbed :
        (p : S → F → Bool) (t : S) (f : F)
        → p s b ≡ true
        → p t f ≡ (HashSet.same dec_s s t && HashSet.same dec_f b f || p t f)
    absorbed p t f h =
        elim (dec_s s t)
          as (λ d. p t f ≡ (
            elim d as (λ _. Bool) [ yes _ ↦ true | no _ ↦ false ] && HashSet.same dec_f b f
            || p t f)) [
              | yes e ↦
                  elim (dec_f b f)
                    as (λ d.
                      p t f ≡ (elim d as (λ _. Bool) [ yes _ ↦ true | no _ ↦ false ] || p t f)) [
                        | yes k ↦ sym (ap₂ p e k) ∙ h
                        | no _ ↦ refl
                      ]
              | no _ ↦ refl
            ]

    add_edge_run :
        (i j : ℕ) (c d : Cg dec_f dec_s dec_b D V) (fs : List F)
        → get_or_insert_node dec_f dec_s dec_b D V cg a ≡ some (i, c)
        → get_or_insert_node dec_f dec_s dec_b D V c b ≡ some (j, d)
        → get_callees dec_f dec_s dec_b D V d s ≡ some fs
        → add_edge dec_f dec_s dec_b D V cg s a b ≡ (
            if HashSet.contains dec_f fs b
            then some (false, d)
            else connect dec_f dec_s dec_b D V d s i j)
    unfolding add_edge Option.bind
    add_edge_run i j c d fs first second found = rw (first, add_edge) (rw second (rw found refl))

    -- On a valid call graph `add_edge` does not panic, and its flag is up exactly when the
    -- call site had no such callee: the call graph stays valid, its calls are the old ones
    -- and that one, its edges are the old ones and, if the flag is up, one from the
    -- caller's node to the callee's with the call site, every function keeps its node, and
    -- the reachable functions are the old ones in their order, then the caller and the
    -- callee where they are new.
    pub add_edge-Adds :
        (r : Cg dec_f dec_s dec_b D V) × (add_edge dec_f dec_s dec_b D V cg s a b
          ≡ some (not (calls dec_f dec_s dec_b D V cg s b), r))
        × Adds r
    add_edge-Adds =
        let (c, i, _, first, n) = add_node-get_or_insert_node dec_f dec_s dec_b D V cg v a in
        let (d, j, _, second, m) = add_node-get_or_insert_node dec_f dec_s dec_b D V c n.valid b in
        let (fs, found, all) = get_callees-calls dec_f dec_s dec_b D V d m.valid s in
        let same_calls = λ (t : S) (f : F).
          calls-Noded dec_f dec_s dec_b D V c d n.valid b j m t f
          ∙ calls-Noded dec_f dec_s dec_b D V cg c v a i n t f in
        let listed : HashSet.contains dec_f fs b ≡ calls dec_f dec_s dec_b D V cg s b =
          all b ∙ same_calls s b in
        let funcs = m.funcs ∙ ap (λ xs. with_func dec_f xs b) n.funcs in
        elim (Bool-cases (calls dec_f dec_s dec_b D V cg s b)) [
          | inl there ↦ (
            d,
            add_edge_run i j c d fs first second found ∙ rw (listed ∙ there) (rw there refl),
            record {
              valid = m.valid;
              caller = i;
              callee = j;
              caller_node = m.kept a i n.stands;
              callee_node = m.stands;
              ends =
                  m.same_ends
                  ∙ n.same_ends
                  ∙ if_true (calls dec_f dec_s dec_b D V cg s b) (D.ends cg.graph)
                      (D.ends cg.graph ++ (i, j) ∷ []) there;
              labels =
                  m.same_labels
                  ∙ n.same_labels
                  ∙ if_true (calls dec_f dec_s dec_b D V cg s b) (D.labels cg.graph)
                      (D.labels cg.graph ++ new_edge s ∷ []) there;
              called = λ t f. same_calls t f ∙ absorbed (calls dec_f dec_s dec_b D V cg) t f there;
              kept = λ f k h. m.kept f k (n.kept f k h);
              funcs = funcs;
            },
          )
          | inr missing ↦
              let (r, done, x) =
                connect-Connects dec_f dec_s dec_b D V d m.valid s a b i j
                  (get_elem?-lt (D.weights d.graph) (new_node a) i
                    (m.valid.numbered a i (m.kept a i n.stands)))
                  (m.valid.numbered b j m.stands) in
              (
                r,
                add_edge_run i j c d fs first second found
                    ∙ rw (listed ∙ missing) (done ∙ rw missing refl),
                record {
                  valid = x.valid;
                  caller = i;
                  callee = j;
                  caller_node =
                      ap (λ ns. HashMap.get dec_f ns a) x.same_nodes ∙ m.kept a i n.stands;
                  callee_node = ap (λ ns. HashMap.get dec_f ns b) x.same_nodes ∙ m.stands;
                  ends =
                      x.ends
                      ∙ ap (λ es. es ++ (i, j) ∷ []) (m.same_ends ∙ n.same_ends)
                      ∙ if_false (calls dec_f dec_s dec_b D V cg s b) (D.ends cg.graph)
                          (D.ends cg.graph ++ (i, j) ∷ []) missing;
                  labels =
                      x.labels
                      ∙ ap (λ es. es ++ new_edge s ∷ []) (m.same_labels ∙ n.same_labels)
                      ∙ if_false (calls dec_f dec_s dec_b D V cg s b) (D.labels cg.graph)
                          (D.labels cg.graph ++ new_edge s ∷ []) missing;
                  called = λ t f.
                      x.called t f
                      ∙ ap (λ y. HashSet.same dec_s s t && HashSet.same dec_f b f || y)
                          (same_calls t f);
                  kept = λ f k h.
                      ap (λ ns. HashMap.get dec_f ns f) x.same_nodes ∙ m.kept f k (n.kept f k h);
                  funcs = ap (λ (q : ChunkedQueue V.Vec). contents V q.chunks) x.same_queue ∙ funcs;
                },
              )
        ]
