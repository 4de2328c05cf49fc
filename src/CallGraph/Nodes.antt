-- ===== src/CallGraph/Nodes.antt =====
-- The nodes of the call graph: one for each function, and the queue of the functions.
use rupta_fork.Base.{
  ℕ, suc, ◌<◌, ◌≡◌, inl, inr, refl, sym, ap, ap₂, subst, ◌∙◌, List, [], ◌∷◌, ◌++◌, map, true, false,
  none, some, length, get_elem?, arith, Bool-cases, Option-cases, length-append,
  get_elem?-append_new, get_elem?-append_old, get_elem?-append_cases, get_elem?-append_left,
  ℕ_discrete,
}
use mathlib.Core.List.{map-append}
use mathlib.Core.Bool.{false≢true}
use mathlib.Core.Option.{none-ne-some, some-injective}
use rupta_fork.Base.HashMap
use rupta_fork.Base.HashSet
use rupta_fork.ChunkedQueue.{ArrayVec, ChunkedQueue, chunk_cap}
use rupta_fork.CallGraph.{
  DiGraph, CallGraphNode, CallGraphEdge, Cg, new_node, new, add_reach_func, add_node,
  get_or_insert_node,
}
use rupta_fork.ChunkedQueue.Chain.{contents}
use rupta_fork.ChunkedQueue.Push
use rupta_fork.CallGraph.Edges.{InRange, Extends}
use rupta_fork.CallGraph.Funcs.{with_func, contains-get_elem?, get_elem?-contains}

module _ {F S B : Type 0} (dec_f : Discrete F) (dec_s : Discrete S) (dec_b : Discrete B)
    (D : DiGraph (CallGraphNode F) (CallGraphEdge S)) (V : ArrayVec F chunk_cap) where
  abbrev pub edges_of : Cg dec_f dec_s dec_b D V → S → List ℕ
  edges_of cg s = HashMap.get_or_default dec_s cg.callsite_to_edges s []

  -- The map and the graph's nodes agree, the queue holds the functions in the order of their
  -- nodes, and the edges of each call site are edges of the graph.
  pub record IsValid (cg : Cg dec_f dec_s dec_b D V) : Type 0 where
    pub numbered :
        (f : F) (i : ℕ)
        → HashMap.get dec_f cg.func_nodes f ≡ some i
        → get_elem? (D.weights cg.graph) i ≡ some (new_node f)
    pub known :
        (f : F) (i : ℕ)
        → get_elem? (D.weights cg.graph) i ≡ some (new_node f)
        → HashMap.get dec_f cg.func_nodes f ≡ some i
    pub queue : Push.IsValid V cg.reach_funcs
    pub order : map new_node (contents V cg.reach_funcs.chunks) ≡ D.weights cg.graph
    pub in_range : InRange dec_f dec_s dec_b D V cg.graph
    pub edges :
        (s : S) (e : ℕ)
        → HashSet.contains ℕ_discrete (edges_of cg s) e ≡ true
        → e < length (D.ends cg.graph)

  pub new-IsValid : IsValid (new dec_f dec_s dec_b D V)
  unfolding new HashMap.get HashSet.contains
  new-IsValid = record {
    numbered = λ f i h. absurd (none-ne-some i h);
    known = λ f i h.
        absurd (none-ne-some (new_node f) (ap (λ ns. get_elem? ns i) (sym D.weights-new) ∙ h));
    queue = Push.new-IsValid V;
    order = ap (map new_node) (Push.contents-new V) ∙ sym D.weights-new;
    in_range =
        λ e a b h. absurd (none-ne-some (a, b) (ap (λ ns. get_elem? ns e) (sym D.ends-new) ∙ h));
    edges = λ s e h. absurd (false≢true h);
  }

  -- What a node for `f` is to be: the graph as it was or one node larger.
  pub record Noded (cg r : Cg dec_f dec_s dec_b D V) (f : F) (i : ℕ) : Type 0 where
    pub valid : IsValid r
    pub stands : HashMap.get dec_f r.func_nodes f ≡ some i
    pub kept :
        (g : F) (j : ℕ)
        → HashMap.get dec_f cg.func_nodes g ≡ some j
        → HashMap.get dec_f r.func_nodes g ≡ some j
    pub extends : Extends dec_f dec_s dec_b D V cg.graph r.graph
    pub same_ends : D.ends r.graph ≡ D.ends cg.graph
    pub same_labels : D.labels r.graph ≡ D.labels cg.graph
    pub same_edges : r.callsite_to_edges ≡ cg.callsite_to_edges
    pub funcs :
        contents V r.reach_funcs.chunks ≡ with_func dec_f (contents V cg.reach_funcs.chunks) f

  module _ (cg : Cg dec_f dec_s dec_b D V) (v : IsValid cg) (f : F) where
    -- The call graph with a new node for `f`, and the queue `queue`.
    abbrev pub noded : ChunkedQueue V.Vec → Cg dec_f dec_s dec_b D V
    noded queue = record cg {
      graph = (D.add_node cg.graph (new_node f)).0;
      func_nodes = HashMap.insert dec_f cg.func_nodes f (D.add_node cg.graph (new_node f)).1;
      reach_funcs = queue;
    }

    pub contains-known :
        (i : ℕ)
        → HashMap.get dec_f cg.func_nodes f ≡ some i
        → HashSet.contains dec_f (contents V cg.reach_funcs.chunks) f ≡ true
    contains-known i h =
        contains-get_elem? dec_f (contents V cg.reach_funcs.chunks) i f
          (ap (λ ns. get_elem? ns i) v.order ∙ v.numbered f i h)

    pub contains-unknown :
        HashMap.get dec_f cg.func_nodes f ≡ none
        → HashSet.contains dec_f (contents V cg.reach_funcs.chunks) f ≡ false
    contains-unknown h =
        elim (Bool-cases (HashSet.contains dec_f (contents V cg.reach_funcs.chunks) f)) [
          | inl there ↦
              let (i, found) =
                get_elem?-contains dec_f (contents V cg.reach_funcs.chunks) f there in
              absurd (
                none-ne-some i
                  (sym h ∙ v.known f i (ap (λ ns. get_elem? ns i) (sym v.order) ∙ found)))
          | inr missing ↦ missing
        ]

    old_Noded : (i : ℕ) → HashMap.get dec_f cg.func_nodes f ≡ some i → Noded cg cg f i
    old_Noded i h = record {
      valid = v;
      stands = h;
      kept = λ g j k. k;
      extends = record { nodes = λ j k. refl; edges = λ e k. refl };
      same_ends = refl;
      same_labels = refl;
      same_edges = refl;
      funcs = sym (rw (contains-known i h, with_func) refl);
    }

    noded-IsValid :
        (queue : ChunkedQueue V.Vec)
        → HashMap.get dec_f cg.func_nodes f ≡ none
        → Push.Pushes V cg.reach_funcs v.queue f queue
        → IsValid (noded queue)
    unfolding new_node
    noded-IsValid queue h p =
        let g = (D.add_node cg.graph (new_node f)).0 in
        let ws : D.weights g ≡ (D.weights cg.graph ++ new_node f ∷ []) =
          D.add_node-weights cg.graph (new_node f) in
        let here : (D.add_node cg.graph (new_node f)).1 ≡ length (D.weights cg.graph) =
          D.add_node-number cg.graph (new_node f) in
        record {
          numbered = λ k i found. elim (dec_f f k) [
            | yes e ↦
                let at : i ≡ length (D.weights cg.graph) =
                  sym (
                    some-injective (D.add_node cg.graph (new_node f)).1 i (
                      sym (
                        HashMap.get-insert_self dec_f cg.func_nodes f
                          (D.add_node cg.graph (new_node f)).1)
                      ∙ ap (HashMap.get dec_f (noded queue).func_nodes) e
                      ∙ found))
                  ∙ here in
                ap₂ get_elem? ws at
                ∙ get_elem?-append_new (D.weights cg.graph) (new_node f)
                ∙ ap (λ x. some (new_node x)) e
            | no ne ↦
                ap (λ ns. get_elem? ns i) ws
                ∙ get_elem?-append_old (D.weights cg.graph) (new_node f) (new_node k) i (
                    v.numbered k i (
                      sym (
                        HashMap.get-insert_ne dec_f cg.func_nodes f k
                          (D.add_node cg.graph (new_node f)).1 ne)
                      ∙ found))
          ];
          known = λ k i found.
              elim (get_elem?-append_cases (D.weights cg.graph) (new_node f) (new_node k) i
                (ap (λ ns. get_elem? ns i) (sym ws) ∙ found)) [
                  | inl old ↦
                      let was = v.known k i old in
                      HashMap.get-insert_ne dec_f cg.func_nodes f k
                        (D.add_node cg.graph (new_node f)).1
                        (λ e. none-ne-some i (sym h ∙ ap (HashMap.get dec_f cg.func_nodes) e ∙ was))
                      ∙ was
                  | inr (at, same) ↦
                      ap (HashMap.get dec_f (noded queue).func_nodes)
                        (sym (ap (λ (n : CallGraphNode F). n.func) same))
                      ∙ HashMap.get-insert_self dec_f cg.func_nodes f
                          (D.add_node cg.graph (new_node f)).1
                      ∙ ap some (here ∙ sym at)
                ];
          queue = p.valid;
          order =
              ap (map new_node) p.appended
              ∙ map-append new_node (contents V cg.reach_funcs.chunks) (f ∷ [])
              ∙ ap (λ ns. ns ++ new_node f ∷ []) v.order
              ∙ sym ws;
          in_range = λ e a b found.
              let (ra, rb) =
                v.in_range e a b (
                  ap (λ es. get_elem? es e) (sym (D.add_node-ends cg.graph (new_node f)))
                  ∙ found) in
              let longer : length (D.weights g) ≡ suc (length (D.weights cg.graph)) =
                omega (arith, ap length ws, length-append (D.weights cg.graph) (new_node f ∷ [])) in
              (omega arith, omega arith);
          edges = λ s e found.
              subst (λ es. e < length es) (sym (D.add_node-ends cg.graph (new_node f)))
                (v.edges s e found);
        }

    new_Noded :
        (queue : ChunkedQueue V.Vec)
        → HashMap.get dec_f cg.func_nodes f ≡ none
        → Push.Pushes V cg.reach_funcs v.queue f queue
        → Noded cg (noded queue) f (length (D.weights cg.graph))
    new_Noded queue h p = record {
      valid = noded-IsValid queue h p;
      stands =
          HashMap.get-insert_self dec_f cg.func_nodes f (D.add_node cg.graph (new_node f)).1
          ∙ ap some (D.add_node-number cg.graph (new_node f));
      kept = λ g j found.
          HashMap.get-insert_ne dec_f cg.func_nodes f g (D.add_node cg.graph (new_node f)).1
            (λ e. none-ne-some j (sym h ∙ ap (HashMap.get dec_f cg.func_nodes) e ∙ found))
          ∙ found;
      extends = record {
        nodes = λ i lt.
            ap (λ ns. get_elem? ns i) (D.add_node-weights cg.graph (new_node f))
            ∙ get_elem?-append_left (D.weights cg.graph) (new_node f ∷ []) i lt;
        edges = λ e lt. ap (λ es. get_elem? es e) (D.add_node-ends cg.graph (new_node f));
      };
      same_ends = D.add_node-ends cg.graph (new_node f);
      same_labels = D.add_node-labels cg.graph (new_node f);
      same_edges = refl;
      funcs = p.appended ∙ sym (rw (contains-unknown h, with_func) refl);
    }

    -- On a valid call graph, `add_node` and `get_or_insert_node` of a function do not panic
    -- and give the same call graph, and the second the function's node: the call graph
    -- stays valid, every function keeps its node, every edge and call stays as it was, and
    -- the reachable functions are the old ones and then this one, if it is new.
    pub add_node-get_or_insert_node :
        (r : Cg dec_f dec_s dec_b D V) × (i : ℕ) × (add_node dec_f dec_s dec_b D V cg f ≡ some r)
        × (get_or_insert_node dec_f dec_s dec_b D V cg f ≡ some (i, r))
        × Noded cg r f i
    unfolding add_node add_reach_func get_or_insert_node
    add_node-get_or_insert_node = elim (Option-cases (HashMap.get dec_f cg.func_nodes f)) [
      | inl missing ↦
          let (queue, pushed, p) = Push.push-Pushes V cg.reach_funcs v.queue f in
          (
            noded queue,
            length (D.weights cg.graph),
            rw (missing, add_node) (rw (pushed, add_reach_func) refl),
            rw (missing, get_or_insert_node)
                (rw pushed
                  (ap (λ n. some (n, noded queue)) (D.add_node-number cg.graph (new_node f)))),
            new_Noded queue missing p,
          )
      | inr (i, found) ↦
          (cg, i, rw (found, add_node) refl, rw (found, get_or_insert_node) refl, old_Noded i found)
    ]
