-- ===== src/Base/HashSet.antt =====
-- `HashSet` of the standard library as a list of its elements.
use mathlib.Core.Path.{◌≡◌, refl}
use mathlib.Core.Logic.{ite}
use mathlib.Core.Bool.{Bool, true, false, not, ◌&&◌, ◌||◌, false≢true}
use mathlib.Core.List.{List, [], ◌∷◌}
use native.Mathlib.Omega.{arith}

module _ {ℓ} {K : Type ℓ} (dec : Discrete K) where
  -- The decision as a test.
  abbrev pub same : K → K → Bool
  same a b = elim (dec a b) [ yes _ ↦ true | no _ ↦ false ]

  pub eq_of_same : (a b : K) → same a b ≡ true → a ≡ b
  eq_of_same a b = held (dec a b)
    where
      held :
          (d : Dec (a ≡ b)) → elim d as (λ _. Bool) [ yes _ ↦ true | no _ ↦ false ] ≡ true → a ≡ b
      held (yes e) h = e
      held (no n) h = absurd (false≢true h)

  pub same_refl : (a : K) → same a a ≡ true
  same_refl a =
      elim (dec a a) as (λ d. elim d as (λ _. Bool) [ yes _ ↦ true | no _ ↦ false ] ≡ true) [
        | yes _ ↦ refl
        | no n ↦ absurd (n refl)
      ]

  unfoldable pub contains : List K → K → Bool
  contains [] k = false
  contains (x ∷ xs) k = same x k || contains xs k

  unfoldable pub insert : List K → K → List K
  insert xs k = elim (contains xs k) [ true ↦ xs | false ↦ k ∷ xs ]

  unfoldable pub remove : List K → K → List K
  remove [] k = []
  remove (x ∷ xs) k = ite (dec x k) (remove xs k) (x ∷ remove xs k)

  pub contains-insert :
      (xs : List K) (k j : K) → contains (insert xs k) j ≡ (same k j || contains xs j)
  unfolding insert contains
  contains-insert xs k j = ground arith

  pub contains-remove :
      (xs : List K) (k j : K) → contains (remove xs k) j ≡ (not (same k j) && contains xs j)
  unfolding remove contains
  contains-remove [] k j = ground arith
  contains-remove (x ∷ xs) k j = ground (arith, contains-remove xs k j)
