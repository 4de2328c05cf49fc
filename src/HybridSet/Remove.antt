-- ===== src/HybridSet/Remove.antt =====
-- `remove` on every branch.
use rupta_fork.Base.{
  ℕ, ◌≡◌, ◌⊎◌, inl, inr, sym, List, true, false, not, ◌&&◌, arith, ◌==◌, Option-cases, ℕ_discrete,
  has,
}
use rupta_fork.BitVec.Insert
use rupta_fork.HybridSet.{HybridSet, small_set, large_set, contains, remove}
use rupta_fork.HybridSet.Vec.{
  position, swap_remove, Distinct, swap_remove-All, IsRemoved, swap_remove-IsRemoved, position-none,
}
use rupta_fork.HybridSet.Valid.{IsIndex, IsValid, remove-IsLarge}

-- The two outcomes at a small set.
IsRemoved-cases :
    (xs : List ℕ) (e : ℕ)
    → Distinct xs
    → ((has xs e ≡ false) × (remove (small_set xs) e ≡ (small_set xs, false)))
      ⊎ ((i : ℕ) × (remove (small_set xs) e ≡ (small_set (swap_remove xs i), true))
          × IsRemoved xs e (swap_remove xs i))
unfolding remove
IsRemoved-cases xs e d = elim (Option-cases (position xs e)) [
  | inl miss ↦ inl (position-none xs e miss, rw (miss, remove))
  | inr (i, hit) ↦ inr (i, rw (hit, remove), swap_remove-IsRemoved xs e i d hit)
]

pub contains-remove :
    (s : HybridSet) (e x : ℕ)
    → IsValid s
    → contains (remove s e).0 x ≡ (not (x == e) && contains s x)
contains-remove (small_set xs) e x v = elim (IsRemoved-cases xs e v.0) [
  | inl (absent, out) ↦ rw out (
      unfold contains in
      elim (ℕ_discrete x e) [ yes q ↦ rw q (ground arith) | no ne ↦ ground arith ])
  | inr (i, out, r) ↦ rw out (unfold contains in r.others x)
]
contains-remove (large_set b) e x v = unfold contains remove in Insert.contains-remove b e x

pub remove_changed : (s : HybridSet) (e : ℕ) → IsValid s → (remove s e).1 ≡ contains s e
remove_changed (small_set xs) e v = elim (IsRemoved-cases xs e v.0) [
  | inl (absent, out) ↦ rw out (unfold contains in sym absent)
  | inr (i, out, r) ↦ rw out (unfold contains in sym r.found)
]
remove_changed (large_set b) e v = unfold contains remove in Insert.remove_changed b e v.0

pub remove-IsValid : (s : HybridSet) (e : ℕ) → IsValid s → IsValid (remove s e).0
remove-IsValid (small_set xs) e v = elim (IsRemoved-cases xs e v.0) [
  | inl (absent, out) ↦ rw out v
  | inr (i, out, r) ↦
      rw out (r.distinct, swap_remove-All IsIndex xs i (omega arith) v.1, omega (arith, r.shorter))
]
remove-IsValid (large_set b) e v = unfold remove in remove-IsLarge b e v
