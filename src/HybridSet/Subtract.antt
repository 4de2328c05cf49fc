-- ===== src/HybridSet/Subtract.antt =====
-- `subtract` on every pair of representations.
use rupta_fork.Base.{ℕ, ◌≡◌, List, Bool, false, not, ◌&&◌, arith}
use rupta_fork.BitVec
use rupta_fork.BitVec.{BitVec, word_mod}
use rupta_fork.BitVec.Sized
use rupta_fork.BitVec.Insert
use rupta_fork.BitVec.Ops
use rupta_fork.HybridSet.{HybridSet, small_set, large_set, contains, subtract}
use rupta_fork.HybridSet.Vec.{
  retain, has-retain, retain-Distinct, retain-All, length-retain-le, retain-Reports,
}
use rupta_fork.HybridSet.Loop.{each_remove-Ok, contains-each_remove, each_remove-Reports}
use rupta_fork.HybridSet.Valid.{IsIndex, IsSmall, IsLarge, IsValid, Reports, remove-IsLarge}

pub retained-IsSmall : (keep : ℕ → Bool) (xs : List ℕ) → IsSmall xs → IsSmall (retain keep xs).0
retained-IsSmall keep xs v = (
  retain-Distinct keep xs v.0,
  retain-All IsIndex keep xs v.1,
  omega (arith, length-retain-le keep xs, v.2),
)

pub subtract-IsValid : (s t : HybridSet) → IsValid s → IsValid t → IsValid (subtract s t).0
unfolding subtract
subtract-IsValid (large_set a) (large_set b) v w =
    (Ops.subtract-IsValid a b v.0 w.0, Sized.subtract-IsSized a b v.1)
subtract-IsValid (large_set a) (small_set ys) v w =
    each_remove-Ok BitVec.contains BitVec.remove IsLarge Insert.contains-remove
      (λ b e l. Insert.remove_changed b e l.0) remove-IsLarge a ys false v
subtract-IsValid (small_set xs) t v w = retained-IsSmall (λ e. not (contains t e)) xs v

pub contains-subtract :
    (s t : HybridSet) (x : ℕ)
    → IsValid t
    → contains (subtract s t).0 x ≡ (contains s x && not (contains t x))
contains-subtract (large_set a) (large_set b) x w =
    unfold subtract contains in Ops.contains-subtract a b x w.0
contains-subtract (large_set a) (small_set ys) x w =
    unfold subtract contains in
    contains-each_remove BitVec.contains BitVec.remove IsLarge Insert.contains-remove
      (λ b e l. Insert.remove_changed b e l.0) remove-IsLarge a ys false x
contains-subtract (small_set xs) t x w =
    unfold subtract in unfold contains in has-retain (λ e. not (contains t e)) xs x

pub subtract-Reports : (s t : HybridSet) → IsValid s → IsValid t → Reports s (subtract s t)
subtract-Reports (large_set a) (large_set b) v w =
    unfold subtract contains in Ops.subtract-Reports a b v.0 w.0
subtract-Reports (large_set a) (small_set ys) v w =
    unfold subtract contains in
    each_remove-Reports BitVec.contains BitVec.remove IsLarge Insert.contains-remove
      (λ b e l. Insert.remove_changed b e l.0) remove-IsLarge a ys v
subtract-Reports (small_set xs) t v w =
    unfold subtract contains in retain-Reports (λ e. not (contains t e)) xs
