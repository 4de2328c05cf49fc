-- ===== src/Propagator/Any.antt =====
-- Tests on the elements of a list of pointees.
use rupta_fork.Base.{
  ℕ, ◌≡◌, ◌↔◌, refl, sym, ap, ◌∙◌, List, [], ◌∷◌, ◌++◌, Bool, true, false, ◌&&◌, ◌||◌, ◌==◌, has,
  arith, inl, inr, Bool-cases, ℕ_discrete, eq_of_==,
}
use mathlib.Core.Bool.{false≢true}

-- Some element passes the test.
abbrev pub any : (ℕ → Bool) → List ℕ → Bool
any f [] = false
any f (x ∷ xs) = f x || any f xs

pub any-ext : (f g : ℕ → Bool) (xs : List ℕ) → ((x : ℕ) → f x ≡ g x) → any f xs ≡ any g xs
any-ext f g [] h = refl
any-ext f g (x ∷ xs) h = ground (arith, h x, any-ext f g xs h)

pub any-append : (f : ℕ → Bool) (xs ys : List ℕ) → any f (xs ++ ys) ≡ (any f xs || any f ys)
any-append f [] ys = refl
any-append f (x ∷ xs) ys = ground (arith, any-append f xs ys)

pub any-none :
    (f : ℕ → Bool) (xs : List ℕ) (x : ℕ) → any f xs ≡ false → has xs x ≡ true → f x ≡ false
any-none f [] x h m = absurd (false≢true m)
any-none f (y ∷ xs) x h m = elim (Bool-cases (y == x)) [
  | inl same ↦ ap f (sym (eq_of_== y x same)) ∙ ground arith
  | inr other ↦ any-none f xs x (ground arith) (second (y == x) (has xs x) other m)
]
  where
    second : (a b : Bool) → a ≡ false → (a || b) ≡ true → b ≡ true
    second a b p q = ground arith

-- One element, which the test stops or lets pass.
pub one_stopped :
    (f : ℕ → Bool) (x y : ℕ) (w h : Bool) → f x ≡ false → h ≡ (w && (has (x ∷ []) y && f y) || h)
one_stopped f x y w h p = elim (ℕ_discrete x y) [
  | yes e ↦ let q : f y ≡ false = ap f (sym e) ∙ p in ground (arith, q)
  | no _ ↦ ground arith
]

pub one_passed :
    (f : ℕ → Bool) (x y : ℕ) (w h : Bool)
    → f x ≡ true
    → (w && y == x || h) ≡ (w && (has (x ∷ []) y && f y) || h)
one_passed f x y w h p = elim (ℕ_discrete x y) [
  | yes e ↦ let q : f y ≡ true = ap f (sym e) ∙ p in ground (arith, q)
  | no _ ↦ ground arith
]

pub flag_stopped : (c a h : Bool) → a ≡ false → c ≡ (c || ((a && h) || false))
flag_stopped c a h p = ground arith

pub flag_passed : (c a h : Bool) → a ≡ true → (c || h) ≡ (c || ((a && h) || false))
flag_passed c a h p = ground arith

pub any_iff :
    (f : ℕ → Bool) (xs : List ℕ) → (any f xs ≡ true) ↔ ((x : ℕ) × (has xs x ≡ true) × (f x ≡ true))
any_iff f xs = (to xs, λ (x, m, h). from xs x m h)
  where
    to : (xs : List ℕ) → any f xs ≡ true → (x : ℕ) × (has xs x ≡ true) × (f x ≡ true)
    to [] h = absurd (false≢true h)
    to (y ∷ xs) h = elim (Bool-cases (f y)) [
      | inl here ↦ (y, ground arith, here)
      | inr other ↦ let (x, m, k) = to xs (ground (arith, h)) in (x, ground (arith, m), k)
    ]

    from : (xs : List ℕ) (x : ℕ) → has xs x ≡ true → f x ≡ true → any f xs ≡ true
    from [] x m h = absurd (false≢true m)
    from (y ∷ xs) x m h = elim (Bool-cases (any f (y ∷ xs))) [
      | inl some_one ↦ some_one
      | inr none_one ↦ absurd (false≢true (sym (any-none f (y ∷ xs) x none_one m) ∙ h))
    ]
