-- ===== src/HybridSet/Vec.antt =====
-- The methods of `Vec` that the small sets use, and lists without repetition.
use rupta_fork.Base.{
  ℕ, zero, suc, ◌+◌, ◌≤◌, ◌≡◌, ◌≢◌, ◌↔◌, inl, inr, refl, ap, List, [], ◌∷◌, ◌++◌, Bool, true, false,
  not, ◌&&◌, ◌||◌, Option, none, some, arith, ◌==◌, if◌then◌else◌, length, set, All, length-append,
  set-All, Bool-cases, subst, ℕ_discrete, has, has-append,
}
use mathlib.Core.Option

unfoldable pub push : List ℕ → ℕ → List ℕ
push xs e = xs ++ e ∷ []

unfoldable pub position : List ℕ → ℕ → Option ℕ
position [] e = none
position (x ∷ xs) e = let rest = Option.map suc (position xs e) in if x == e then some 0 else rest

-- The list without its last element, and that element.
abbrev pub init : List ℕ → List ℕ
init [] = []
init (x ∷ []) = []
init (x ∷ y ∷ xs) = x ∷ init (y ∷ xs)

abbrev pub last_or : ℕ → List ℕ → ℕ
last_or d [] = d
last_or d (x ∷ xs) = last_or x xs

-- The last element takes the place of the one at `pos`; at the last place it is only cut off.
unfoldable pub swap_remove : List ℕ → ℕ → List ℕ
swap_remove xs pos = set (init xs) pos (last_or 0 xs)

-- `retain`, with a closure that notes whether it has dropped something.
unfoldable pub retain : (ℕ → Bool) → List ℕ → List ℕ × Bool
retain keep [] = ([], false)
retain keep (x ∷ xs) =
    let (rest, changed) = retain keep xs in if keep x then (x ∷ rest, changed) else (rest, true)

abbrev pub Distinct : List ℕ → Type 0
Distinct [] = Unit {0}
Distinct (x ∷ xs) = (has xs x ≡ false) × Distinct xs

pub has-push : (xs : List ℕ) (e x : ℕ) → has (push xs e) x ≡ (x == e || has xs x)
unfolding push
has-push xs e x = ground (arith, has-append xs (e ∷ []) x)

pub push-Distinct : (xs : List ℕ) (e : ℕ) → has xs e ≡ false → Distinct xs → Distinct (push xs e)
unfolding push
push-Distinct [] e h d = (refl, tt)
push-Distinct (x ∷ xs) e h d =
    (ground (arith, has-append xs (e ∷ []) x), push-Distinct xs e (ground arith) d.1)

pub push-All {κ} : (P : ℕ → Type κ) (xs : List ℕ) (e : ℕ) → P e → All P xs → All P (push xs e)
unfolding push
push-All P [] e p h = (p, tt)
push-All P (x ∷ xs) e p h = (h.0, push-All P xs e p h.1)

pub length-push : (xs : List ℕ) (e : ℕ) → length (push xs e) ≡ length xs + 1
unfolding push
length-push xs e = omega (arith, length-append xs (e ∷ []))

pub has-retain :
    (keep : ℕ → Bool) (xs : List ℕ) (x : ℕ) → has (retain keep xs).0 x ≡ (has xs x && keep x)
unfolding retain
has-retain keep [] x = refl
has-retain keep (y ∷ xs) x = elim (ℕ_discrete y x) [
  | yes e ↦ rw e (ground (arith, has-retain keep xs x))
  | no ne ↦ ground (arith, has-retain keep xs x)
]

pub retain-Distinct : (keep : ℕ → Bool) (xs : List ℕ) → Distinct xs → Distinct (retain keep xs).0
unfolding retain
retain-Distinct keep [] d = tt
retain-Distinct keep (x ∷ xs) d = ground (arith, has-retain keep xs x, retain-Distinct keep xs d.1)

pub retain-All {κ} :
    (P : ℕ → Type κ) (keep : ℕ → Bool) (xs : List ℕ) → All P xs → All P (retain keep xs).0
unfolding retain
retain-All P keep [] h = tt
retain-All P keep (x ∷ xs) h = elim (Bool-cases (keep x)) [
  | inl k ↦ rw k (h.0, retain-All P keep xs h.1)
  | inr d ↦ rw d (retain-All P keep xs h.1)
]

pub length-retain-le : (keep : ℕ → Bool) (xs : List ℕ) → length (retain keep xs).0 ≤ length xs
unfolding retain
length-retain-le keep [] = omega arith
length-retain-le keep (x ∷ xs) = ground (arith, length-retain-le keep xs)

unchanged_cons :
    (keep : ℕ → Bool) (y : ℕ) (xs : List ℕ)
    → ((retain keep xs).1 ≡ false) ↔ ((x : ℕ) → has xs x ≡ true → keep x ≡ true)
    → ((retain keep (y ∷ xs)).1 ≡ false) ↔ ((x : ℕ) → has (y ∷ xs) x ≡ true → keep x ≡ true)
unfolding retain
unchanged_cons keep y xs rest = (
  (λ e x h. elim (ℕ_discrete y x) [
    | yes q ↦ subst (λ z. keep z ≡ true) q (ground arith)
    | no ne ↦ rest.0 (ground arith) x (ground arith)
  ]),
  (λ h. ground (arith, h y (ground arith), rest.1 (λ x m. h x (ground arith)))),
)

-- The flag stays down exactly when everything is kept.
pub retain_unchanged :
    (keep : ℕ → Bool) (xs : List ℕ)
    → ((retain keep xs).1 ≡ false) ↔ ((x : ℕ) → has xs x ≡ true → keep x ≡ true)
unfolding retain
retain_unchanged keep [] = ((λ e x h. cc), (λ h. refl))
retain_unchanged keep (y ∷ xs) = unchanged_cons keep y xs (retain_unchanged keep xs)

pub position-none : (xs : List ℕ) (e : ℕ) → position xs e ≡ none → has xs e ≡ false
unfolding position
position-none [] e h = refl
position-none (x ∷ xs) e h = ground (arith, position-none xs e)

-- The last element first, then the others: the same elements.
has-init : (x : ℕ) (xs : List ℕ) (y : ℕ) → has (last_or x xs ∷ init (x ∷ xs)) y ≡ has (x ∷ xs) y
has-init x [] y = refl
has-init x (z ∷ xs) y = ground (arith, has-init z xs y)

init-Distinct : (x : ℕ) (xs : List ℕ) → Distinct (x ∷ xs) → Distinct (last_or x xs ∷ init (x ∷ xs))
init-Distinct x [] d = (refl, tt)
init-Distinct x (z ∷ xs) d =
    ground (arith, init-Distinct z xs d.1, has-init z xs x, has-init z xs (last_or z xs))

-- What `swap_remove` leaves at the place found: everything but the element, and that once.
pub record IsRemoved (xs : List ℕ) (e : ℕ) (out : List ℕ) : Type 0 where
  pub found : has xs e ≡ true
  pub others : (y : ℕ) → has out y ≡ (not (y == e) && has xs y)
  pub distinct : Distinct out
  pub shorter : length out + 1 ≡ length xs

length-init : (x : ℕ) (xs : List ℕ) → length (init (x ∷ xs)) ≡ length xs
length-init x [] = refl
length-init x (z ∷ xs) = ap suc (length-init z xs)

position_first : (x : ℕ) (xs : List ℕ) (e : ℕ) → position (x ∷ xs) e ≡ some 0 → x ≡ e
unfolding position
position_first x xs e h = ground arith

position_later :
    (x : ℕ) (xs : List ℕ) (e i : ℕ)
    → position (x ∷ xs) e ≡ some (suc i)
    → (x ≢ e) × (position xs e ≡ some i)
unfolding position
position_later x xs e i h = ground arith

swap_remove_at :
    (x : ℕ) (xs : List ℕ) (e i : ℕ)
    → Distinct (x ∷ xs)
    → position (x ∷ xs) e ≡ some i
    → IsRemoved (x ∷ xs) e (set (init (x ∷ xs)) i (last_or x xs))
unfolding position
swap_remove_at x [] e zero d h =
    let hit : x ≡ e = ground arith in
    record {
      found = ground arith;
      others = λ y. ground arith;
      distinct = tt;
      shorter = omega arith;
    }
swap_remove_at x [] e (suc i) d h = absurd (ground arith)
swap_remove_at x (z ∷ xs) e zero d h =
    let hit : x ≡ e = position_first x (z ∷ xs) e h in
    let gone : has (z ∷ xs) e ≡ false = subst (λ k. has (z ∷ xs) k ≡ false) hit d.0 in
    record {
      found = ground arith;
      others = λ y. elim (ℕ_discrete y e) [
        | yes q ↦ rw q (ground (arith, has-init z xs e))
        | no ne ↦ ground (arith, has-init z xs y)
      ];
      distinct = init-Distinct z xs d.1;
      shorter = omega (arith, length-init z xs);
    }
swap_remove_at x (z ∷ xs) e (suc i) d h =
    let (miss, later) = position_later x (z ∷ xs) e i h in
    let rest = swap_remove_at z xs e i d.1 later in
    record {
      found = ground (arith, rest.found);
      others = λ y. ground (arith, rest.others y);
      distinct = (ground (arith, rest.others x), rest.distinct);
      shorter = omega (arith, rest.shorter);
    }

-- At the position of an element, `swap_remove` takes that element out and nothing else.
pub swap_remove-IsRemoved :
    (xs : List ℕ) (e i : ℕ)
    → Distinct xs
    → position xs e ≡ some i
    → IsRemoved xs e (swap_remove xs i)
unfolding swap_remove position
swap_remove-IsRemoved [] e i d h = absurd (cc)
swap_remove-IsRemoved (x ∷ xs) e i d h = swap_remove_at x xs e i d h

init-All {κ} : (P : ℕ → Type κ) (xs : List ℕ) → All P xs → All P (init xs)
init-All P [] h = tt
init-All P (x ∷ []) h = tt
init-All P (x ∷ z ∷ xs) h = (h.0, init-All P (z ∷ xs) h.1)

last-All {κ} : (P : ℕ → Type κ) (d : ℕ) (xs : List ℕ) → P d → All P xs → P (last_or d xs)
last-All P d [] p h = p
last-All P d (x ∷ xs) p h = last-All P x xs h.0 h.1

pub swap_remove-All {κ} :
    (P : ℕ → Type κ) (xs : List ℕ) (i : ℕ) → P 0 → All P xs → All P (swap_remove xs i)
unfolding swap_remove
swap_remove-All P xs i p h =
    set-All P (init xs) i (last_or 0 xs) (last-All P 0 xs p h) (init-All P xs h)

-- So the flag says whether the elements have changed.
pub retain-Reports :
    (keep : ℕ → Bool) (xs : List ℕ)
    → ((retain keep xs).1 ≡ false) ↔ ((x : ℕ) → has (retain keep xs).0 x ≡ has xs x)
retain-Reports keep xs =
    let iff = retain_unchanged keep xs in
    (
      (λ down x. ground (arith, (iff.0 down) x, has-retain keep xs x)),
      (λ same. iff.1 (λ x h. ground (arith, same x, has-retain keep xs x))),
    )
