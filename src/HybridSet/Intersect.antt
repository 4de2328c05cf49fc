-- ===== src/HybridSet/Intersect.antt =====
-- `intersect` on every pair of representations.
use rupta_fork.Base.{
  ℕ, ◌≡◌, ◌↔◌, refl, sym, ◌∙◌, List, Bool, true, false, ◌&&◌, ◌||◌, arith, leb, has,
}
use mathlib.Core.Bool.{false≢true}
use rupta_fork.BitVec
use rupta_fork.BitVec.{BitVec, word_mod}
use rupta_fork.BitVec.Valid
use rupta_fork.BitVec.Sized
use rupta_fork.BitVec.Ops
use rupta_fork.HybridSet.{HybridSet, small_set, large_set, contains, intersect}
use rupta_fork.HybridSet.Vec.{has-retain, retain_unchanged}
use rupta_fork.HybridSet.Valid.{IsValid, Reports}
use rupta_fork.HybridSet.Vec.{retain-Reports}
use rupta_fork.HybridSet.Subtract.{retained-IsSmall}
use rupta_fork.BitVec.{capacity}

-- Whether an element of the first set that the second lacks is kept: only between two large sets,
-- in the words that the second does not have.
abbrev pub spared : HybridSet → HybridSet → ℕ → Bool
spared (small_set xs) t x = false
spared (large_set a) (small_set ys) x = false
spared (large_set a) (large_set b) x = leb (capacity b.words) x

pub intersect-IsValid : (s t : HybridSet) → IsValid s → IsValid t → IsValid (intersect s t).0
unfolding intersect
intersect-IsValid (large_set a) (large_set b) v w =
    (Ops.intersect-IsValid a b v.0 w.0, Sized.intersect-IsSized a b v.1)
intersect-IsValid (large_set a) (small_set ys) v w =
    retained-IsSmall (λ e. BitVec.contains a e) ys w
intersect-IsValid (small_set xs) t v w = retained-IsSmall (λ e. contains t e) xs v

-- `intersect` holds the elements of the first set that the second holds, and between two large
-- sets also those at or above the capacity of the second.
pub contains-intersect :
    (s t : HybridSet) (x : ℕ)
    → contains (intersect s t).0 x ≡ (contains s x && (contains t x || spared s t x))
contains-intersect (large_set a) (large_set b) x =
    unfold intersect contains in Ops.contains-intersect a b x
contains-intersect (large_set a) (small_set ys) x =
    unfold intersect contains in ground (arith, has-retain (λ e. BitVec.contains a e) ys x)
contains-intersect (small_set xs) t x =
    unfold intersect in unfold contains in ground (arith, has-retain (λ e. contains t e) xs x)

-- The flag of `intersect` is right unless a large set is cut by a small one.
pub intersect_small-Reports :
    (xs : List ℕ) (t : HybridSet) → Reports (small_set xs) (intersect (small_set xs) t)
intersect_small-Reports xs t = unfold intersect contains in retain-Reports (λ e. contains t e) xs

pub intersect_large-Reports :
    (a b : BitVec)
    → Valid.IsValid a
    → Valid.IsValid b
    → Reports (large_set a) (intersect (large_set a) (large_set b))
intersect_large-Reports a b v w = unfold intersect contains in Ops.intersect-Reports a b v w

intersect_mixed_changed :
    (a : BitVec) (ys : List ℕ)
    → ((intersect (large_set a) (small_set ys)).1 ≡ false)
      ↔ ((x : ℕ) → has ys x ≡ true → BitVec.contains a x ≡ true)
intersect_mixed_changed a ys = unfold intersect in retain_unchanged (λ e. BitVec.contains a e) ys

-- A loss that the flag of `intersect` hides: an element of the first set that is gone.
abbrev pub HidesLoss : HybridSet → HybridSet → Type 0
HidesLoss s t =
    ((intersect s t).1 ≡ false)
    × (x : ℕ) × (contains s x ≡ true)
    × (contains (intersect s t).0 x ≡ false)

-- The pairs of sets for which it does: a large set that holds every element of a small one, and
-- more than these.
abbrev pub IsCutUnseen : HybridSet → HybridSet → Type 0
IsCutUnseen (large_set a) (small_set ys) =
    ((x : ℕ) → has ys x ≡ true → BitVec.contains a x ≡ true)
    × (x : ℕ) × (BitVec.contains a x ≡ true)
    × (has ys x ≡ false)
IsCutUnseen (large_set a) (large_set b) = ⊥
IsCutUnseen (small_set xs) t = ⊥

seen : (s t : HybridSet) → Reports s (intersect s t) → HidesLoss s t ↔ ⊥
seen s t reports =
    ((λ (down, x, held, lost). false≢true (sym lost ∙ reports.0 down x ∙ held)), (λ e. absurd e))

-- On valid sets the flag of `intersect` is down though the first set loses an element exactly
-- when the first set is large, the second small, and the first holds every element of the
-- second and more: between two large sets, or with a small first set, no loss goes unreported.
pub intersect-HidesLoss :
    (s t : HybridSet) → IsValid s → IsValid t → HidesLoss s t ↔ IsCutUnseen s t
intersect-HidesLoss (small_set xs) t v w = seen (small_set xs) t (intersect_small-Reports xs t)
intersect-HidesLoss (large_set a) (large_set b) v w =
    seen (large_set a) (large_set b) (intersect_large-Reports a b v.0 w.0)
intersect-HidesLoss (large_set a) (small_set ys) v w =
    let flag = intersect_mixed_changed a ys in
    let cut : (x : ℕ)
        → contains (intersect (large_set a) (small_set ys)).0 x
          ≡ (BitVec.contains a x && (has ys x || false)) =
      λ x. unfold contains in contains-intersect (large_set a) (small_set ys) x in
    let there : (x : ℕ) → contains (large_set a) x ≡ BitVec.contains a x =
      λ x. unfold contains in refl in
    (
      (λ (down, x, held, lost). (
        flag.0 down,
        x,
        sym (there x) ∙ held,
        left_out _ _ (sym (there x) ∙ held) (sym (cut x) ∙ lost),
      )),
      (λ (all, x, held, out). (flag.1 all, x, there x ∙ held, cut x ∙ ground (arith, out))),
    )
  where
    left_out : (a h : Bool) → a ≡ true → (a && (h || false)) ≡ false → h ≡ false
    left_out a h p q = ground arith
