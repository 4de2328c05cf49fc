-- ===== src/Base/Lists.antt =====
-- Lists measured and indexed by native numbers, under the library's names.
use Prim.Native.Nat.{ℕ, zero, suc, ◌+◌, ◌<◌, ◌≤◌}
use mathlib.Core.Path.{◌≡◌, refl, ap}
use mathlib.Core.Logic.{◌≢◌, ◌⊎◌, inl, inr}
use mathlib.Core.Bool.{Bool, true, false, ◌&&◌, ◌||◌}
use mathlib.Core.List.{List, [], ◌∷◌, ◌++◌}
use mathlib.Core.Option.{Option, none, some}
use native.Mathlib.Omega.{arith}
use rupta_fork.Base.Tests.{◌==◌}

module _ {ℓ} {A : Type ℓ} where
  abbrev pub length : List A → ℕ
  length [] = 0
  length (x ∷ xs) = suc (length xs)

  abbrev pub get_elem? : List A → ℕ → Option A
  get_elem? [] i = none
  get_elem? (x ∷ xs) zero = some x
  get_elem? (x ∷ xs) (suc i) = get_elem? xs i

  abbrev pub get_or : List A → ℕ → A → A
  get_or [] i d = d
  get_or (x ∷ xs) zero d = x
  get_or (x ∷ xs) (suc i) d = get_or xs i d

  -- A write out of bounds changes nothing.
  abbrev pub set : List A → ℕ → A → List A
  set [] i v = []
  set (x ∷ xs) zero v = v ∷ xs
  set (x ∷ xs) (suc i) v = x ∷ set xs i v

  abbrev pub take : ℕ → List A → List A
  take zero xs = []
  take (suc n) [] = []
  take (suc n) (x ∷ xs) = x ∷ take n xs

  abbrev pub drop : ℕ → List A → List A
  drop zero xs = xs
  drop (suc n) [] = []
  drop (suc n) (x ∷ xs) = drop n xs

  abbrev pub all : (A → Bool) → List A → Bool
  all p [] = true
  all p (x ∷ xs) = p x && all p xs

  -- A predicate at every element.
  abbrev pub All {κ} : (A → Type κ) → List A → Type κ
  All P [] = Unit
  All P (x ∷ xs) = P x × All P xs

  -- A list within the limit is taken whole.
  pub take_of_length-le : (limit : ℕ) (l : List A) → length l ≤ limit → take limit l ≡ l
  take_of_length-le (suc limit) (a ∷ l) fits =
      ap (λ rest. a ∷ rest) (take_of_length-le limit l (omega arith))
  take_of_length-le (suc limit) [] fits = refl
  take_of_length-le zero (a ∷ l) fits = absurd (omega arith)
  take_of_length-le zero [] fits = refl

  pub length-append : (xs ys : List A) → length (xs ++ ys) ≡ length xs + length ys
  length-append [] ys = omega arith
  length-append (x ∷ xs) ys = omega (arith, length-append xs ys)

  pub length-set : (xs : List A) (i : ℕ) (v : A) → length (set xs i v) ≡ length xs
  length-set [] i v = refl
  length-set (x ∷ xs) zero v = refl
  length-set (x ∷ xs) (suc i) v = ap suc (length-set xs i v)

  pub length-take-le : (limit : ℕ) (l : List A) → length (take limit l) ≤ limit
  length-take-le (suc limit) (a ∷ l) = omega (arith, length-take-le limit l)
  length-take-le (suc limit) [] = omega arith
  length-take-le zero l = omega arith

  pub get_or-set_self :
      (xs : List A) (i : ℕ) (v d : A) → i < length xs → get_or (set xs i v) i d ≡ v
  get_or-set_self [] i v d h = absurd (omega arith)
  get_or-set_self (x ∷ xs) zero v d h = refl
  get_or-set_self (x ∷ xs) (suc i) v d h = get_or-set_self xs i v d (omega arith)

  pub get_or-set_ne :
      (xs : List A) (i j : ℕ) (v d : A) → i ≢ j → get_or (set xs i v) j d ≡ get_or xs j d
  get_or-set_ne [] i j v d ne = refl
  get_or-set_ne (x ∷ xs) zero zero v d ne = absurd (ne refl)
  get_or-set_ne (x ∷ xs) zero (suc j) v d ne = refl
  get_or-set_ne (x ∷ xs) (suc i) zero v d ne = refl
  get_or-set_ne (x ∷ xs) (suc i) (suc j) v d ne = get_or-set_ne xs i j v d (λ e. ne (ap suc e))

  pub get_or_beyond : (xs : List A) (i : ℕ) (d : A) → length xs ≤ i → get_or xs i d ≡ d
  get_or_beyond [] i d h = refl
  get_or_beyond (x ∷ xs) zero d h = absurd (omega arith)
  get_or_beyond (x ∷ xs) (suc i) d h = get_or_beyond xs i d (omega arith)

  -- A write of the value that stands there changes nothing.
  pub set-get_or : (xs : List A) (i : ℕ) (d : A) → set xs i (get_or xs i d) ≡ xs
  set-get_or [] i d = refl
  set-get_or (x ∷ xs) zero d = refl
  set-get_or (x ∷ xs) (suc i) d = ap (◌∷◌ x) (set-get_or xs i d)

  -- `Vec::resize`: cut, or filled up with `v`.
  abbrev pub resize : List A → ℕ → A → List A
  resize xs zero v = []
  resize [] (suc n) v = v ∷ resize [] n v
  resize (x ∷ xs) (suc n) v = x ∷ resize xs n v

  pub length-resize : (xs : List A) (n : ℕ) (v : A) → length (resize xs n v) ≡ n
  length-resize xs zero v = refl
  length-resize [] (suc n) v = ap suc (length-resize [] n v)
  length-resize (x ∷ xs) (suc n) v = ap suc (length-resize xs n v)

  pub get_or-resize :
      (xs : List A) (n i : ℕ) (v : A) → i < n → get_or (resize xs n v) i v ≡ get_or xs i v
  get_or-resize xs zero i v h = absurd (omega arith)
  get_or-resize [] (suc n) zero v h = refl
  get_or-resize [] (suc n) (suc i) v h = get_or-resize [] n i v (omega arith)
  get_or-resize (x ∷ xs) (suc n) zero v h = refl
  get_or-resize (x ∷ xs) (suc n) (suc i) v h = get_or-resize xs n i v (omega arith)

  -- Growing keeps a predicate that the filling satisfies.
  pub resize-All {κ} :
      (P : A → Type κ) (xs : List A) (n : ℕ) (v : A) → P v → All P xs → All P (resize xs n v)
  resize-All P xs zero v p h = tt
  resize-All P [] (suc n) v p h = (p, resize-All P [] n v p tt)
  resize-All P (x ∷ xs) (suc n) v p h = (h.0, resize-All P xs n v p h.1)

  pub get_or-All {κ} :
      (P : A → Type κ) (xs : List A) (i : ℕ) (d : A) → P d → All P xs → P (get_or xs i d)
  get_or-All P [] i d p h = p
  get_or-All P (x ∷ xs) zero d p h = h.0
  get_or-All P (x ∷ xs) (suc i) d p h = get_or-All P xs i d p h.1

  pub set-All {κ} :
      (P : A → Type κ) (xs : List A) (i : ℕ) (v : A) → P v → All P xs → All P (set xs i v)
  set-All P [] i v p h = tt
  set-All P (x ∷ xs) zero v p h = (p, h.1)
  set-All P (x ∷ xs) (suc i) v p h = (h.0, set-All P xs i v p h.1)

module _ {ℓ} {A : Type ℓ} where
  -- Reading a list that has grown by one.
  pub get_elem?-append_old :
      (xs : List A) (a b : A) (i : ℕ)
      → get_elem? xs i ≡ some b
      → get_elem? (xs ++ a ∷ []) i ≡ some b
  get_elem?-append_old [] a b i h = absurd (cc)
  get_elem?-append_old (x ∷ xs) a b zero h = h
  get_elem?-append_old (x ∷ xs) a b (suc i) h = get_elem?-append_old xs a b i h

  pub get_elem?-append_new : (xs : List A) (a : A) → get_elem? (xs ++ a ∷ []) (length xs) ≡ some a
  get_elem?-append_new [] a = refl
  get_elem?-append_new (x ∷ xs) a = get_elem?-append_new xs a

  pub get_elem?-append_cases :
      (xs : List A) (a b : A) (i : ℕ)
      → get_elem? (xs ++ a ∷ []) i ≡ some b
      → (get_elem? xs i ≡ some b) ⊎ ((i ≡ length xs) × (a ≡ b))
  get_elem?-append_cases [] a b zero h = inr (refl, cc)
  get_elem?-append_cases [] a b (suc i) h = absurd (cc)
  get_elem?-append_cases (x ∷ xs) a b zero h = inl h
  get_elem?-append_cases (x ∷ xs) a b (suc i) h = elim (get_elem?-append_cases xs a b i h) [
    | inl old ↦ inl old
    | inr (e, q) ↦ inr (ap suc e, q)
  ]

  pub get_elem?_within : (xs : List A) (i : ℕ) → i < length xs → (x : A) × (get_elem? xs i ≡ some x)
  get_elem?_within [] i h = absurd (omega arith)
  get_elem?_within (x ∷ xs) zero h = (x, refl)
  get_elem?_within (x ∷ xs) (suc i) h = get_elem?_within xs i (omega arith)

  pub get_elem?-append_left :
      (xs ys : List A) (i : ℕ) → i < length xs → get_elem? (xs ++ ys) i ≡ get_elem? xs i
  get_elem?-append_left [] ys i h = absurd (omega arith)
  get_elem?-append_left (x ∷ xs) ys zero h = refl
  get_elem?-append_left (x ∷ xs) ys (suc i) h = get_elem?-append_left xs ys i (omega arith)

  pub get_elem?-lt : (xs : List A) (b : A) (i : ℕ) → get_elem? xs i ≡ some b → i < length xs
  get_elem?-lt [] b i h = absurd (cc)
  get_elem?-lt (x ∷ xs) b zero h = omega arith
  get_elem?-lt (x ∷ xs) b (suc i) h = omega (arith, get_elem?-lt xs b i h)

-- `slice::contains` on numbers.
abbrev pub has : List ℕ → ℕ → Bool
has [] x = false
has (y ∷ ys) x = y == x || has ys x

-- Strictly ascending, from `lo` on.
abbrev pub Ascending : ℕ → List ℕ → Type 0
Ascending lo [] = Unit {0}
Ascending lo (x ∷ xs) = (lo ≤ x) × Ascending (suc x) xs

pub has-append : (xs ys : List ℕ) (x : ℕ) → has (xs ++ ys) x ≡ (has xs x || has ys x)
has-append [] ys x = refl
has-append (y ∷ xs) ys x = ground (arith, has-append xs ys x)

pub Ascending-mono : (a b : ℕ) (xs : List ℕ) → a ≤ b → Ascending b xs → Ascending a xs
Ascending-mono a b [] h s = tt
Ascending-mono a b (x ∷ xs) h s = (omega arith, s.1)

pub Ascending-has : (lo x : ℕ) (xs : List ℕ) → Ascending lo xs → has xs x ≡ true → lo ≤ x
Ascending-has lo x [] s h = absurd (cc)
Ascending-has lo x (y ∷ xs) s h = ground (arith, Ascending-has (suc y) x xs s.1)

pub All-of_has {κ} : (P : ℕ → Type κ) (xs : List ℕ) → ((x : ℕ) → has xs x ≡ true → P x) → All P xs
All-of_has P [] h = tt
All-of_has P (y ∷ xs) h = (h y (ground arith), All-of_has P xs (λ x m. h x (ground arith)))
