-- ===== src/BitVec/Sized.antt =====
-- The bits of a vector stay within the count of a `usize`.
use rupta_fork.Base.{
  ℕ, ◌+◌, ◌-◌, ◌*◌, ◌/◌, ◌%◌, ◌^◌, ◌<◌, List, [], ◌∷◌, arith, length, get_or, resize, All, bit_and,
  bit_or, length-set, length-resize,
}
use rupta_fork.BitVec.{
  BitVec, ensure, insert, remove, union, subtract, intersect, complement, word_mod, from_loop,
}
use rupta_fork.BitVec.Bitwise.{bitwise-length}
use rupta_fork.BitVec.Elements.{IsSized}

-- The operations keep the size within a `usize`, `insert` that of an index.
pub insert-IsSized : (b : BitVec) (x : ℕ) → x < word_mod → IsSized b → IsSized (insert b x).0
unfolding insert ensure
insert-IsSized b x h v = ground (
  arith,
  length-set b.words (x / 64) (bit_or (get_or b.words (x / 64) 0) (2 ^ (x % 64))),
  length-resize b.words ((x + 1 + 64 - 1) / 64) 0,
  length-set (resize b.words ((x + 1 + 64 - 1) / 64) 0) (x / 64)
      (bit_or (get_or (resize b.words ((x + 1 + 64 - 1) / 64) 0) (x / 64) 0) (2 ^ (x % 64))),
)

pub remove-IsSized : (b : BitVec) (x : ℕ) → IsSized b → IsSized (remove b x).0
unfolding remove
remove-IsSized b x v = ground (
  arith,
  length-set b.words (x / 64) (bit_and (get_or b.words (x / 64) 0) (complement (2 ^ (x % 64)))),
)

pub union-IsSized : (a b : BitVec) → IsSized a → IsSized b → IsSized (union a b).0
unfolding union ensure
union-IsSized a b v w = ground (
  arith,
  bitwise-length bit_or a.words b.words,
  bitwise-length bit_or (resize a.words ((length b.words * 64 + 64 - 1) / 64) 0) b.words,
  length-resize a.words ((length b.words * 64 + 64 - 1) / 64) 0,
)

pub subtract-IsSized : (a b : BitVec) → IsSized a → IsSized (subtract a b).0
unfolding subtract
subtract-IsSized a b v =
    omega (arith, bitwise-length (λ x y. bit_and x (complement y)) a.words b.words)

pub intersect-IsSized : (a b : BitVec) → IsSized a → IsSized (intersect a b).0
unfolding intersect
intersect-IsSized a b v = omega (arith, bitwise-length bit_and a.words b.words)

pub from_loop-IsSized :
    (b : BitVec) (xs : List ℕ) → All (λ x. x < word_mod) xs → IsSized b → IsSized (from_loop b xs)
unfolding from_loop
from_loop-IsSized b [] h v = v
from_loop-IsSized b (x ∷ xs) h v =
    from_loop-IsSized (insert b x).0 xs h.1 (insert-IsSized b x h.0 v)
