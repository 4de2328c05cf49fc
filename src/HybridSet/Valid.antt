-- ===== src/HybridSet/Valid.antt =====
-- The invariant of a set: a small one lists each element once and has at most 32; a large one has
-- words of 64 bits and a size within a `usize`.
use rupta_fork.Base.{ℕ, ◌≤◌, ◌<◌, ◌≡◌, ◌↔◌, List, Bool, false, arith, length, All, has}
use rupta_fork.BitVec
use rupta_fork.BitVec.{BitVec, word_mod}
use rupta_fork.BitVec.Valid
use rupta_fork.BitVec.Elements.{IsSized}
use rupta_fork.BitVec.Sized
use rupta_fork.BitVec.Insert
use rupta_fork.BitVec.Member.{contains-new_empty}
use rupta_fork.HybridSet.{HybridSet, small_set, large_set, contains}
use rupta_fork.HybridSet.Vec.{Distinct}

abbrev pub IsIndex : ℕ → Type 0
IsIndex x = x < word_mod

abbrev pub IsSmall : List ℕ → Type 0
IsSmall xs = Distinct xs × All IsIndex xs × (length xs ≤ 32)

abbrev pub IsLarge : BitVec → Type 0
IsLarge b = Valid.IsValid b × IsSized b

abbrev pub IsValid : HybridSet → Type 0
IsValid (small_set xs) = IsSmall xs
IsValid (large_set b) = IsLarge b

-- The flag of an operation on `s` with the result `r` is down exactly when the elements stay.
abbrev pub Reports : HybridSet → HybridSet × Bool → Type 0
Reports s r = (r.1 ≡ false) ↔ ((x : ℕ) → contains r.0 x ≡ contains s x)

pub insert-IsLarge : (b : BitVec) (e : ℕ) → IsIndex e → IsLarge b → IsLarge (BitVec.insert b e).0
insert-IsLarge b e h v = (Valid.insert-IsValid b e v.0, Sized.insert-IsSized b e h v.1)

pub remove-IsLarge : (b : BitVec) (e : ℕ) → IsLarge b → IsLarge (BitVec.remove b e).0
remove-IsLarge b e v = (Valid.remove-IsValid b e v.0, Sized.remove-IsSized b e v.1)

-- The conversion of a small set.
pub converted-IsLarge :
    (xs : List ℕ) → All IsIndex xs → IsLarge (BitVec.from_loop BitVec.new_empty xs)
unfolding BitVec.new_empty
converted-IsLarge xs h = (
  Valid.from_loop-IsValid BitVec.new_empty xs tt,
  Sized.from_loop-IsSized BitVec.new_empty xs h (omega arith),
)

pub contains-converted :
    (xs : List ℕ) (x : ℕ) → BitVec.contains (BitVec.from_loop BitVec.new_empty xs) x ≡ has xs x
contains-converted xs x =
    ground (arith, Insert.contains-from_loop BitVec.new_empty xs x, contains-new_empty x)
