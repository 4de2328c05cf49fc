-- ===== src/CallGraph/Edges.antt =====
-- The callees of a list of edges: what `callees_of` collects.
use rupta_fork.Base.{
  ℕ, ◌<◌, ◌≡◌, inl, inr, refl, sym, ap, ap₂, subst, ◌∙◌, List, [], ◌∷◌, Bool, true, false, ◌||◌,
  none, some, length, get_elem?, arith, Bool-cases, Option-cases, get_elem?_within, ℕ_discrete,
}
use mathlib.Core.Option
use mathlib.Core.Option.{none-ne-some, some-injective}
use rupta_fork.Base.HashSet
use rupta_fork.ChunkedQueue.{ArrayVec, chunk_cap}
use rupta_fork.CallGraph.{DiGraph, CallGraphNode, CallGraphEdge, callees_of}

module _ {F S B : Type 0} (dec_f : Discrete F) (dec_s : Discrete S) (dec_b : Discrete B)
    (D : DiGraph (CallGraphNode F) (CallGraphEdge S)) (V : ArrayVec F chunk_cap) where
  -- The edge leads to the function's node.
  abbrev pub leads : D.Graph → ℕ → F → Bool
  leads g e f = elim (get_elem? (D.ends g) e) [
    | none ↦ false
    | some (_, target) ↦ elim (get_elem? (D.weights g) target) [
      | none ↦ false
      | some node ↦ HashSet.same dec_f node.func f
    ]
  ]

  abbrev pub any_leads : D.Graph → List ℕ → F → Bool
  any_leads g [] f = false
  any_leads g (e ∷ es) f = leads g e f || any_leads g es f

  -- Every edge is between two nodes of the graph.
  abbrev pub InRange : D.Graph → Type 0
  InRange g =
      (e a b : ℕ)
      → get_elem? (D.ends g) e ≡ some (a, b)
      → a < length (D.weights g) × b < length (D.weights g)

  pub callees_of_lem :
      (g : D.Graph) (r : InRange g) (es : List ℕ)
      → (fs : List F) × (callees_of dec_f dec_s dec_b D V g es ≡ some fs)
        × ((f : F) → HashSet.contains dec_f fs f ≡ any_leads g es f)
  unfolding callees_of HashSet.contains Option.bind
  callees_of_lem g r [] = ([], refl, λ f. refl)
  callees_of_lem g r (e ∷ es) =
      let (fs, done, all) = callees_of_lem g r es in
      elim (Option-cases (get_elem? (D.ends g) e)) [
        | inl missing ↦ (
          fs,
          rw (D.edge_endpoints-ends g e ∙ missing, callees_of) done,
          λ f. rw (missing, leads) (all f),
        )
        | inr ((a, b), found) ↦
            let (node, stands) = get_elem?_within (D.weights g) b (r e a b found).1 in
            (
              HashSet.insert dec_f fs node.func,
              rw (D.edge_endpoints-ends g e ∙ found, callees_of)
                  (rw (D.node_weight-weights g b ∙ stands, callees_of) (rw done refl)),
              λ f.
                  HashSet.contains-insert dec_f fs node.func f
                  ∙ ap (λ t. HashSet.same dec_f node.func f || t) (all f)
                  ∙ sym (rw (found, leads) (rw (stands, leads) refl)),
            )
      ]

  -- A graph with the same nodes at least, and the same edges at least.
  pub record Extends (g h : D.Graph) : Type 0 where
    pub nodes :
        (i : ℕ) → i < length (D.weights g) → get_elem? (D.weights h) i ≡ get_elem? (D.weights g) i
    pub edges : (e : ℕ) → e < length (D.ends g) → get_elem? (D.ends h) e ≡ get_elem? (D.ends g) e

  pub leads-Extends :
      (g h : D.Graph) (r : InRange g) (x : Extends g h) (e : ℕ) (f : F)
      → e < length (D.ends g)
      → leads h e f ≡ leads g e f
  leads-Extends g h r x e f lt =
      let ((a, b), found) = get_elem?_within (D.ends g) e lt in
      rw (x.edges e lt ∙ found, leads)
        (rw (found, leads) (rw (x.nodes b (r e a b found).1, leads) refl))

  pub any_leads-Extends :
      (g h : D.Graph) (r : InRange g) (x : Extends g h) (es : List ℕ) (f : F)
      → ((e : ℕ) → HashSet.contains ℕ_discrete es e ≡ true → e < length (D.ends g))
      → any_leads h es f ≡ any_leads g es f
  unfolding HashSet.contains
  any_leads-Extends g h r x [] f lt = refl
  any_leads-Extends g h r x (e ∷ es) f lt =
      ap₂ ◌||◌ (leads-Extends g h r x e f (lt e (ground arith)))
        (any_leads-Extends g h r x es f (λ d k. lt d (ground arith)))

  -- A new edge in the set.
  pub any_leads-insert :
      (g : D.Graph) (es : List ℕ) (e : ℕ) (f : F)
      → any_leads g (HashSet.insert ℕ_discrete es e) f ≡ (leads g e f || any_leads g es f)
  unfolding HashSet.insert HashSet.contains
  any_leads-insert g es e f = elim (Bool-cases (HashSet.contains ℕ_discrete es e)) [
    | inl there ↦ rw (there, any_leads) (sym (absorbed es there))
    | inr fresh ↦ rw (fresh, any_leads) refl
  ]
    where
      twice : (a b : Bool) → (a || (a || b)) ≡ (a || b)
      twice true b = refl
      twice false b = refl

      swapped : (a b c : Bool) → (a || c) ≡ c → (a || (b || c)) ≡ (b || c)
      swapped true true c h = refl
      swapped true false c h = h
      swapped false b c h = refl

      absorbed :
          (es : List ℕ)
          → HashSet.contains ℕ_discrete es e ≡ true
          → (leads g e f || any_leads g es f) ≡ any_leads g es f
      absorbed [] h = ground (arith, h)
      absorbed (d ∷ es) h = elim (ℕ_discrete d e) [
        | yes same ↦
            subst
              (λ x.
                (leads g x f || (leads g d f || any_leads g es f))
                ≡ (leads g d f || any_leads g es f))
              same (twice (leads g d f) (any_leads g es f))
        | no other ↦
            swapped (leads g e f) (leads g d f) (any_leads g es f) (absorbed es (ground (arith, h)))
      ]
