-- ===== src/CallGraph/Funcs.antt =====
-- The functions of the call graph as a list without repetition, in the order of their nodes.
use rupta_fork.Base.{
  ℕ, zero, suc, ◌≡◌, ap, List, [], ◌∷◌, ◌++◌, map, true, false, some, get_elem?, arith,
}
use mathlib.Core.Bool.{false≢true}
use mathlib.Core.Option.{none-ne-some, some-injective}
use rupta_fork.Base.HashSet
use rupta_fork.CallGraph.{CallGraphNode, new_node}

-- The functions with one more at the end, if it is not there.
abbrev pub with_func : {F : Type 0} → Discrete F → List F → F → List F
with_func dec fs f = elim (HashSet.contains dec fs f) [ true ↦ fs | false ↦ fs ++ f ∷ [] ]

module _ {F : Type 0} (dec : Discrete F) where
  pub contains-get_elem? :
      (fs : List F) (i : ℕ) (f : F)
      → get_elem? (map new_node fs) i ≡ some (new_node f)
      → HashSet.contains dec fs f ≡ true
  unfolding HashSet.contains new_node
  contains-get_elem? [] i f h = absurd (none-ne-some (new_node f) h)
  contains-get_elem? (x ∷ fs) zero f h =
      ground
        (arith, ap (λ (n : CallGraphNode F). n.func) (some-injective (new_node x) (new_node f) h))
  contains-get_elem? (x ∷ fs) (suc i) f h = ground (arith, contains-get_elem? fs i f h)

  pub get_elem?-contains :
      (fs : List F) (f : F)
      → HashSet.contains dec fs f ≡ true
      → (i : ℕ) × (get_elem? (map new_node fs) i ≡ some (new_node f))
  unfolding HashSet.contains
  get_elem?-contains [] f h = absurd (false≢true h)
  get_elem?-contains (x ∷ fs) f h = elim (dec x f) [
    | yes e ↦ (0, ap (λ y. some (new_node y)) e)
    | no ne ↦ let (i, found) = get_elem?-contains fs f (ground (arith, h)) in (suc i, found)
  ]
