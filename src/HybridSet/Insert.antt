-- ===== src/HybridSet/Insert.antt =====
-- `insert` on every branch.
use rupta_fork.Base.{
  ℕ, ◌≡◌, inl, inr, List, not, ◌||◌, arith, ltb, ◌==◌, length, Bool-cases, ℕ_discrete, has,
}
use rupta_fork.BitVec
use rupta_fork.BitVec.{BitVec, word_mod}
use rupta_fork.BitVec.Insert
use rupta_fork.HybridSet.{HybridSet, small_set, large_set, new, contains, insert}
use rupta_fork.HybridSet.Vec.{has-push, push-Distinct, push-All, length-push}
use rupta_fork.HybridSet.Valid.{
  IsIndex, IsValid, insert-IsLarge, converted-IsLarge, contains-converted,
}

full :
    (xs : List ℕ) (e x : ℕ)
    → BitVec.contains (BitVec.insert (BitVec.from_loop BitVec.new_empty xs) e).0 x
      ≡ (x == e || has xs x)
full xs e x = ground (
  arith,
  Insert.contains-insert (BitVec.from_loop BitVec.new_empty xs) e x,
  contains-converted xs x,
)

pub contains-insert :
    (s : HybridSet) (e x : ℕ) → contains (insert s e).0 x ≡ (x == e || contains s x)
unfolding insert contains
contains-insert (small_set xs) e x = elim (ℕ_discrete x e) [
  | yes q ↦ rw q (ground (arith, has-push xs e e, full xs e e))
  | no ne ↦ ground (arith, has-push xs e x, full xs e x)
]
contains-insert (large_set b) e x = Insert.contains-insert b e x

pub insert_changed : (s : HybridSet) (e : ℕ) → (insert s e).1 ≡ not (contains s e)
unfolding insert contains
insert_changed (small_set xs) e =
    ground (
      arith,
      Insert.insert_changed (BitVec.from_loop BitVec.new_empty xs) e,
      contains-converted xs e,
    )
insert_changed (large_set b) e = Insert.insert_changed b e

pub insert-IsValid : (s : HybridSet) (e : ℕ) → IsIndex e → IsValid s → IsValid (insert s e).0
unfolding insert
insert-IsValid (small_set xs) e h v = elim (Bool-cases (has xs e)) [
  | inl old ↦ rw old v
  | inr new ↦ elim (Bool-cases (ltb (length xs) 32)) [
    | inl room ↦
        rw (new, room)
          (
            push-Distinct xs e new v.0,
            push-All IsIndex xs e h v.1,
            ground (arith, length-push xs e),
          )
    | inr full ↦
        rw (new, full)
          (insert-IsLarge (BitVec.from_loop BitVec.new_empty xs) e h (converted-IsLarge xs v.1))
  ]
]
insert-IsValid (large_set b) e h v = insert-IsLarge b e h v
