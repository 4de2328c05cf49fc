-- ===== src/HybridSet/Queries.antt =====
-- The iterator, `count`, `superset`, `is_empty`, `clear` and `new` against `contains`.
use rupta_fork.Base.{
  Ascending-has, All-of_has, ℕ, zero, suc, ◌+◌, ◌≡◌, ◌↔◌, inl, inr, refl, sym, ap, ◌∙◌, List, [],
  ◌∷◌, Bool, true, false, Option, none, some, arith, length, take, all, All, Bool-cases, subst,
  take_of_length-le, ℕ_discrete, has, Ascending,
}
use rupta_fork.BitVec
use rupta_fork.BitVec.{BitVec, word_mod}
use rupta_fork.BitVec.Valid
use rupta_fork.BitVec.Superset
use rupta_fork.BitVec.Iter
use rupta_fork.HybridSet.{
  HybridSet, small_set, large_set, new, clear, count, contains, is_empty, small_iter, large_iter,
  collect, to_list, contains_all, superset,
}
use rupta_fork.HybridSet.Vec.{Distinct}
use rupta_fork.HybridSet.Valid.{IsIndex, IsValid}

collect_small : (fuel : ℕ) (xs : List ℕ) → collect fuel (small_iter xs) ≡ take fuel xs
unfolding collect
collect_small zero xs = refl
collect_small (suc fuel) [] = refl
collect_small (suc fuel) (x ∷ xs) = ap (◌∷◌ x) (collect_small fuel xs)

collect_large_next :
    (fuel : ℕ) (r : Option ℕ × BitVec.BitIter)
    → collect fuel (large_iter r.1) ≡ BitVec.collect fuel r.1
    → elim r.0 [ none ↦ [] | some x ↦ x ∷ collect fuel (large_iter r.1) ]
      ≡ elim r.0 [ none ↦ [] | some x ↦ x ∷ BitVec.collect fuel r.1 ]
collect_large_next fuel (none, it) ih = refl
collect_large_next fuel (some x, it) ih = ap (◌∷◌ x) ih

collect_large :
    (fuel : ℕ) (it : BitVec.BitIter) → collect fuel (large_iter it) ≡ BitVec.collect fuel it
unfolding collect BitVec.collect
collect_large zero it = refl
collect_large (suc fuel) it =
    collect_large_next fuel (BitVec.next it) (collect_large fuel (BitVec.next it).1)

pub to_list_small : (xs : List ℕ) → to_list (small_set xs) ≡ xs
unfolding to_list
to_list_small xs =
    collect_small (length xs + 1) xs ∙ take_of_length-le (length xs + 1) xs (omega arith)

pub to_list_large : (b : BitVec) → Valid.IsValid b → to_list (large_set b) ≡ BitVec.to_list b
unfolding to_list
to_list_large b v =
    collect_large (BitVec.count b + 1) (BitVec.iter b)
    ∙ Iter.collect-elements b (BitVec.count b + 1) v (omega arith)
    ∙ sym (Iter.to_list-elements b v)

-- The iterator of a valid set, small or large, visits exactly the elements that `contains`
-- reports.
pub has-to_list : (s : HybridSet) (x : ℕ) → IsValid s → has (to_list s) x ≡ contains s x
unfolding contains
has-to_list (small_set xs) x v = rw to_list_small
has-to_list (large_set b) x v = rw (to_list_large b v.0) (Iter.has-to_list b x v.0 v.1)

Ascending-Distinct : (lo : ℕ) (xs : List ℕ) → Ascending lo xs → Distinct xs
Ascending-Distinct lo [] s = tt
Ascending-Distinct lo (x ∷ xs) s = elim (Bool-cases (has xs x)) [
  | inl twice ↦ absurd (omega (arith, Ascending-has (suc x) x xs s.1 twice))
  | inr once ↦ (once, Ascending-Distinct (suc x) xs s.1)
]

-- The iterator of a valid set visits no element twice.
pub to_list-Distinct : (s : HybridSet) → IsValid s → Distinct (to_list s)
to_list-Distinct (small_set xs) v = rw (to_list_small xs) v.0
to_list-Distinct (large_set b) v =
    rw (to_list_large b v.0)
      (Ascending-Distinct 0 (BitVec.to_list b) (Iter.Ascending-to_list b v.0 v.1))

pub to_list-All : (s : HybridSet) → IsValid s → All IsIndex (to_list s)
to_list-All (small_set xs) v = rw (to_list_small xs) v.1
to_list-All (large_set b) v = rw (to_list_large b v.0) (
    All-of_has IsIndex (BitVec.to_list b)
      λ x m. omega (arith, v.1, Iter.contains-lt b x (sym (Iter.has-to_list b x v.0 v.1) ∙ m)))

-- The iterator of a valid set visits as many elements as `count` says.
pub length-to_list : (s : HybridSet) → IsValid s → length (to_list s) ≡ count s
unfolding count
length-to_list (small_set xs) v = ap length (to_list_small xs)
length-to_list (large_set b) v = ap length (to_list_large b v.0) ∙ Iter.length-to_list b v.0

all_cons :
    (p : ℕ → Bool) (y : ℕ) (xs : List ℕ)
    → (all p xs ≡ true) ↔ ((x : ℕ) → has xs x ≡ true → p x ≡ true)
    → (all p (y ∷ xs) ≡ true) ↔ ((x : ℕ) → has (y ∷ xs) x ≡ true → p x ≡ true)
all_cons p y xs rest = (
  (λ e x h. elim (ℕ_discrete y x) [
    | yes q ↦ subst (λ z. p z ≡ true) q (ground arith)
    | no ne ↦ rest.0 (ground arith) x (ground arith)
  ]),
  (λ h. ground (arith, h y (ground arith), rest.1 (λ x m. h x (ground arith)))),
)

all_iff :
    (p : ℕ → Bool) (xs : List ℕ) → (all p xs ≡ true) ↔ ((x : ℕ) → has xs x ≡ true → p x ≡ true)
all_iff p [] = ((λ e x h. cc), (λ h. refl))
all_iff p (y ∷ xs) = all_cons p y xs (all_iff p xs)

contains_all_iff :
    (s t : HybridSet)
    → IsValid t
    → (contains_all s t ≡ true) ↔ ((x : ℕ) → contains t x ≡ true → contains s x ≡ true)
unfolding contains_all
contains_all_iff s t w =
    let iff = all_iff (contains s) (to_list t) in
    (
      (λ e x h. iff.0 e x (has-to_list t x w ∙ h)),
      (λ h. iff.1 (λ x m. h x (sym (has-to_list t x w) ∙ m))),
    )

-- When the second set is valid, `superset` is true exactly when the first set holds every
-- element of the second, whatever the representations.
pub superset_iff :
    (s t : HybridSet)
    → IsValid t
    → (superset s t ≡ true) ↔ ((x : ℕ) → contains t x ≡ true → contains s x ≡ true)
unfolding superset
superset_iff (large_set a) (large_set b) w = unfold contains in Superset.superset_iff a b w.0
superset_iff (large_set a) (small_set ys) w = contains_all_iff (large_set a) (small_set ys) w
superset_iff (small_set xs) t w = contains_all_iff (small_set xs) t w

pub is_empty_iff :
    (s : HybridSet) → IsValid s → (is_empty s ≡ true) ↔ ((x : ℕ) → contains s x ≡ false)
unfolding is_empty contains
is_empty_iff (small_set []) v = ((λ e x. refl), (λ h. refl))
is_empty_iff (small_set (y ∷ xs)) v = ((λ e. cc), (λ h. ground (arith, h y)))
is_empty_iff (large_set b) v = Superset.is_empty_iff b v.0

pub contains-new : (x : ℕ) → contains new x ≡ false
unfolding contains new
contains-new x = refl

pub contains-clear : (s : HybridSet) (x : ℕ) → contains (clear s) x ≡ false
unfolding contains clear
contains-clear (small_set xs) x = refl
contains-clear (large_set b) x = refl

pub new-IsValid : IsValid new
unfolding new
new-IsValid = (tt, tt, omega arith)

pub clear-IsValid : (s : HybridSet) → IsValid (clear s)
unfolding clear
clear-IsValid (small_set xs) = (tt, tt, omega arith)
clear-IsValid (large_set b) = (tt, tt, omega arith)
