-- ===== src/HybridSet/Union.antt =====
-- `union` on every pair of representations.
use rupta_fork.Base.{ℕ, ◌≡◌, sym, ◌∙◌, false, ◌||◌, arith}
use rupta_fork.BitVec
use rupta_fork.BitVec.{BitVec, word_mod}
use rupta_fork.BitVec.Sized
use rupta_fork.BitVec.Insert
use rupta_fork.BitVec.Ops
use rupta_fork.HybridSet.{HybridSet, small_set, large_set, contains, insert, union}
use rupta_fork.HybridSet.Loop.{each_insert-Ok, contains-each_insert, each_insert-Reports}
use rupta_fork.HybridSet.Valid.{
  IsIndex, IsLarge, IsValid, Reports, insert-IsLarge, converted-IsLarge, contains-converted,
}
use rupta_fork.HybridSet.Insert.{contains-insert, insert_changed, insert-IsValid}

pub union-IsValid : (s t : HybridSet) → IsValid s → IsValid t → IsValid (union s t).0
unfolding union
union-IsValid (large_set a) (large_set b) v w =
    (Ops.union-IsValid a b v.0 w.0, Sized.union-IsSized a b v.1 w.1)
union-IsValid (large_set a) (small_set ys) v w =
    each_insert-Ok BitVec.contains BitVec.insert IsLarge IsIndex Insert.contains-insert
      Insert.insert_changed insert-IsLarge a ys false w.1 v
union-IsValid (small_set xs) (large_set b) v w =
    let c = converted-IsLarge xs v.1 in
    (
      Ops.union-IsValid (BitVec.from_loop BitVec.new_empty xs) b c.0 w.0,
      Sized.union-IsSized (BitVec.from_loop BitVec.new_empty xs) b c.1 w.1,
    )
union-IsValid (small_set xs) (small_set ys) v w =
    each_insert-Ok contains insert IsValid IsIndex contains-insert insert_changed insert-IsValid
      (small_set xs) ys false w.1 v

pub contains-union :
    (s t : HybridSet) (x : ℕ) → contains (union s t).0 x ≡ (contains s x || contains t x)
unfolding union contains
contains-union (large_set a) (large_set b) x = Ops.contains-union a b x
contains-union (large_set a) (small_set ys) x = ground (
  arith,
  contains-each_insert BitVec.contains BitVec.insert IsLarge IsIndex Insert.contains-insert
      Insert.insert_changed insert-IsLarge a ys false x,
)
contains-union (small_set xs) (large_set b) x =
    ground (
      arith,
      Ops.contains-union (BitVec.from_loop BitVec.new_empty xs) b x,
      contains-converted xs x,
    )
contains-union (small_set xs) (small_set ys) x = ground (
  arith,
  contains-each_insert contains insert IsValid IsIndex contains-insert insert_changed insert-IsValid
      (small_set xs) ys false x,
)

pub union-Reports : (s t : HybridSet) → IsValid s → IsValid t → Reports s (union s t)
union-Reports (large_set a) (large_set b) v w =
    unfold union contains in Ops.union-Reports a b v.0 w.0
union-Reports (large_set a) (small_set ys) v w =
    unfold union contains in
    each_insert-Reports BitVec.contains BitVec.insert IsLarge IsIndex Insert.contains-insert
      Insert.insert_changed insert-IsLarge a ys
union-Reports (small_set xs) (large_set b) v w =
    unfold union contains in
    let iff =
      Ops.union-Reports (BitVec.from_loop BitVec.new_empty xs) b (converted-IsLarge xs v.1).0 w.0 in
    (
      (λ down x. iff.0 down x ∙ contains-converted xs x),
      (λ same. iff.1 (λ x. same x ∙ sym (contains-converted xs x))),
    )
union-Reports (small_set xs) (small_set ys) v w =
    unfold union in
    each_insert-Reports contains insert IsValid IsIndex contains-insert insert_changed
      insert-IsValid (small_set xs) ys
