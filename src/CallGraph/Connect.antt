-- ===== src/CallGraph/Connect.antt =====
-- The second half of `add_edge`: one more edge, and one more call.
use rupta_fork.Base.{
  ℕ, suc, ◌<◌, ◌≡◌, ◌≢◌, ◌⊎◌, inl, inr, refl, sym, ap, ap₂, subst, ◌∙◌, [], ◌∷◌, ◌++◌, Bool, true,
  false, ◌||◌, ◌&&◌, some, length, get_elem?, arith, length-append, get_elem?-append_new,
  get_elem?-append_old, get_elem?-append_cases, get_elem?-lt, get_elem?-append_left, ℕ_discrete,
}
use mathlib.Core.Option
use mathlib.Core.Option.{none-ne-some, some-injective}
use rupta_fork.Base.HashMap
use rupta_fork.Base.HashSet
use rupta_fork.ChunkedQueue.{ArrayVec, chunk_cap}
use rupta_fork.CallGraph.{DiGraph, CallGraphNode, CallGraphEdge, Cg, new_node, new_edge, connect}
use rupta_fork.CallGraph.Edges.{Extends, leads, any_leads, any_leads-Extends, any_leads-insert}
use rupta_fork.CallGraph.Nodes.{IsValid, edges_of}
use rupta_fork.CallGraph.Calls.{calls}

module _ {F S B : Type 0} (dec_f : Discrete F) (dec_s : Discrete S) (dec_b : Discrete B)
    (D : DiGraph (CallGraphNode F) (CallGraphEdge S)) (V : ArrayVec F chunk_cap) where
  module _ (cg : Cg dec_f dec_s dec_b D V) (v : IsValid dec_f dec_s dec_b D V cg) (s : S) (a b : F)
      (i j : ℕ) where
    -- What the new edge is to do.
    pub record Connects (r : Cg dec_f dec_s dec_b D V) : Type 0 where
      pub valid : IsValid dec_f dec_s dec_b D V r
      pub called :
          (t : S) (f : F)
          → calls dec_f dec_s dec_b D V r t f ≡ (
              HashSet.same dec_s s t && HashSet.same dec_f b f
              || calls dec_f dec_s dec_b D V cg t f)
      pub same_nodes : r.func_nodes ≡ cg.func_nodes
      pub same_queue : r.reach_funcs ≡ cg.reach_funcs
      pub ends : D.ends r.graph ≡ (D.ends cg.graph ++ (i, j) ∷ [])
      pub labels : D.labels r.graph ≡ (D.labels cg.graph ++ new_edge s ∷ [])
      pub edge : get_elem? (D.ends r.graph) (length (D.ends cg.graph)) ≡ some (i, j)
      pub kept :
          (e x y : ℕ)
          → get_elem? (D.ends cg.graph) e ≡ some (x, y)
          → get_elem? (D.ends r.graph) e ≡ some (x, y)
      pub only :
          (e x y : ℕ)
          → get_elem? (D.ends r.graph) e ≡ some (x, y)
          → (get_elem? (D.ends cg.graph) e ≡ some (x, y)) ⊎ (i ≡ x) × (j ≡ y)

    -- The call graph with the edge.
    abbrev linked : D.Graph → Cg dec_f dec_s dec_b D V
    linked h = record cg {
      graph = h;
      callsite_to_edges = HashMap.insert dec_s cg.callsite_to_edges s (
          HashSet.insert ℕ_discrete (edges_of dec_f dec_s dec_b D V cg s)
            (length (D.ends cg.graph)));
    }

    edges_of-linked_self :
        (h : D.Graph)
        → edges_of dec_f dec_s dec_b D V (linked h) s
          ≡ HashSet.insert ℕ_discrete
              (edges_of dec_f dec_s dec_b D V cg s)
              (length (D.ends cg.graph))
    edges_of-linked_self h =
        ap (λ o. Option.get_or o [])
          (HashMap.get-insert_self dec_s cg.callsite_to_edges s (
            HashSet.insert ℕ_discrete (edges_of dec_f dec_s dec_b D V cg s)
              (length (D.ends cg.graph))))

    edges_of-linked_ne :
        (h : D.Graph) (t : S)
        → s ≢ t
        → edges_of dec_f dec_s dec_b D V (linked h) t ≡ edges_of dec_f dec_s dec_b D V cg t
    edges_of-linked_ne h t ne =
        ap (λ o. Option.get_or o [])
          (HashMap.get-insert_ne dec_s cg.callsite_to_edges s t
            (HashSet.insert ℕ_discrete (edges_of dec_f dec_s dec_b D V cg s)
              (length (D.ends cg.graph)))
            ne)

    -- The graph `h` has the edge from `i` to `j` at its end.
    record Longer (h : D.Graph) : Type 0 where
      nodes : D.weights h ≡ D.weights cg.graph
      ends : D.ends h ≡ (D.ends cg.graph ++ (i, j) ∷ [])

    edges_before :
        (h : D.Graph) (l : Longer h) (e x y : ℕ)
        → get_elem? (D.ends h) e ≡ some (x, y)
        → (get_elem? (D.ends cg.graph) e ≡ some (x, y)) ⊎ (i ≡ x) × (j ≡ y)
    edges_before h l e x y found =
        elim (get_elem?-append_cases (D.ends cg.graph) (i, j) (x, y) e
          (ap (λ es. get_elem? es e) (sym l.ends) ∙ found)) [
            | inl old ↦ inl old
            | inr (_, same) ↦ inr (ap (λ (p : ℕ × ℕ). p.0) same, ap (λ (p : ℕ × ℕ). p.1) same)
          ]

    edge_count : (h : D.Graph) → Longer h → length (D.ends h) ≡ suc (length (D.ends cg.graph))
    edge_count h l = omega (arith, ap length l.ends, length-append (D.ends cg.graph) ((i, j) ∷ []))

    linked-edges :
        (h : D.Graph) (l : Longer h) (t : S) (e : ℕ)
        → HashSet.contains ℕ_discrete (edges_of dec_f dec_s dec_b D V (linked h) t) e ≡ true
        → e < length (D.ends h)
    linked-edges h l t e found = elim (dec_s s t) [
      | yes same ↦ at_self (
          ap (λ es. HashSet.contains ℕ_discrete es e) (sym (edges_of-linked_self h))
          ∙ subst
              (λ x.
                HashSet.contains ℕ_discrete (edges_of dec_f dec_s dec_b D V (linked h) x) e ≡ true)
              (sym same) found)
      | no ne ↦ omega (
        arith,
        edge_count h l,
        v.edges t e
            (ap (λ es. HashSet.contains ℕ_discrete es e) (sym (edges_of-linked_ne h t ne)) ∙ found),
      )
    ]
      where
        at_self :
            HashSet.contains ℕ_discrete
                (HashSet.insert ℕ_discrete
                  (edges_of dec_f dec_s dec_b D V cg s)
                  (length (D.ends cg.graph)))
                e
              ≡ true
            → e < length (D.ends h)
        at_self k = elim (ℕ_discrete (length (D.ends cg.graph)) e) [
          | yes at ↦ omega (arith, edge_count h l)
          | no other ↦ omega (
            arith,
            edge_count h l,
            v.edges s e (
                ground (
                  arith,
                  k,
                  HashSet.contains-insert ℕ_discrete (edges_of dec_f dec_s dec_b D V cg s)
                      (length (D.ends cg.graph)) e,
                )),
          )
        ]

    linked-IsValid :
        (h : D.Graph)
        → i < length (D.weights cg.graph)
        → j < length (D.weights cg.graph)
        → Longer h
        → IsValid dec_f dec_s dec_b D V (linked h)
    linked-IsValid h ri rj l = record {
      numbered = λ f k found. ap (λ ns. get_elem? ns k) l.nodes ∙ v.numbered f k found;
      known = λ f k found. v.known f k (ap (λ ns. get_elem? ns k) (sym l.nodes) ∙ found);
      queue = v.queue;
      order = v.order ∙ sym l.nodes;
      in_range = λ e x y found.
          subst (λ ns. x < length ns × y < length ns) (sym l.nodes)
            (elim (edges_before h l e x y found) [
              | inl old ↦ v.in_range e x y old
              | inr (ex, ey) ↦ (
                subst (λ n. n < length (D.weights cg.graph)) ex ri,
                subst (λ n. n < length (D.weights cg.graph)) ey rj,
              )
            ]);
      edges = linked-edges h l;
    }

    linked-Extends : (h : D.Graph) → Longer h → Extends dec_f dec_s dec_b D V cg.graph h
    linked-Extends h l = record {
      nodes = λ k lt. ap (λ ns. get_elem? ns k) l.nodes;
      edges = λ e lt.
          ap (λ es. get_elem? es e) l.ends
          ∙ get_elem?-append_left (D.ends cg.graph) ((i, j) ∷ []) e lt;
    }

    linked-leads :
        (h : D.Graph) (l : Longer h) (f : F)
        → get_elem? (D.weights cg.graph) j ≡ some (new_node b)
        → leads dec_f dec_s dec_b D V h (length (D.ends cg.graph)) f ≡ HashSet.same dec_f b f
    unfolding new_node
    linked-leads h l f at =
        rw
          (
            ap (λ es. get_elem? es (length (D.ends cg.graph))) l.ends
                ∙ get_elem?-append_new (D.ends cg.graph) (i, j),
            leads,
          )
          (rw (ap (λ ns. get_elem? ns j) l.nodes ∙ at, leads) refl)

    linked-calls :
        (h : D.Graph) (l : Longer h)
        → get_elem? (D.weights cg.graph) j ≡ some (new_node b)
        → (t : S) (f : F)
        → calls dec_f dec_s dec_b D V (linked h) t f
          ≡ (HashSet.same dec_s s t && HashSet.same dec_f b f || calls dec_f dec_s dec_b D V cg t f)
    linked-calls h l at t f =
        let kept = λ (t : S).
          any_leads-Extends dec_f dec_s dec_b D V cg.graph h v.in_range (linked-Extends h l)
            (edges_of dec_f dec_s dec_b D V cg t) f (v.edges t) in
        elim (dec_s s t)
          as (λ d. calls dec_f dec_s dec_b D V (linked h) t f ≡ (
            elim d as (λ _. Bool) [ yes _ ↦ true | no _ ↦ false ] && HashSet.same dec_f b f
            || calls dec_f dec_s dec_b D V cg t f)) [
              | yes same ↦
                  subst
                    (λ x.
                      calls dec_f dec_s dec_b D V (linked h) x f
                      ≡ (HashSet.same dec_f b f || calls dec_f dec_s dec_b D V cg x f))
                    same
                    (ap (λ es. any_leads dec_f dec_s dec_b D V h es f) (edges_of-linked_self h)
                      ∙ any_leads-insert dec_f dec_s dec_b D V h
                          (edges_of dec_f dec_s dec_b D V cg s) (length (D.ends cg.graph)) f
                      ∙ ap₂ ◌||◌ (linked-leads h l f at) (kept s))
              | no ne ↦
                  ap (λ es. any_leads dec_f dec_s dec_b D V h es f) (edges_of-linked_ne h t ne)
                  ∙ kept t
            ]

    pub connect-Connects :
        i < length (D.weights cg.graph)
        → get_elem? (D.weights cg.graph) j ≡ some (new_node b)
        → (r : Cg dec_f dec_s dec_b D V) × (connect dec_f dec_s dec_b D V cg s i j ≡ some (true, r))
          × Connects r
    unfolding connect
    connect-Connects ri at =
        let rj = get_elem?-lt (D.weights cg.graph) (new_node b) j at in
        let (h, done, nodes, ends) = D.add_edge_lem cg.graph i j (new_edge s) ri rj in
        let l : Longer h = record { nodes = nodes; ends = ends } in
        (
          linked h,
          rw (done, connect) refl,
          record {
            valid = linked-IsValid h ri rj l;
            called = linked-calls h l at;
            same_nodes = refl;
            same_queue = refl;
            ends = ends;
            labels = D.add_edge-labels cg.graph h i j (length (D.ends cg.graph)) (new_edge s) done;
            edge =
                ap (λ es. get_elem? es (length (D.ends cg.graph))) ends
                ∙ get_elem?-append_new (D.ends cg.graph) (i, j);
            kept = λ e x y found.
                ap (λ es. get_elem? es e) ends
                ∙ get_elem?-append_old (D.ends cg.graph) (i, j) (x, y) e found;
            only = edges_before h l;
          },
        )
