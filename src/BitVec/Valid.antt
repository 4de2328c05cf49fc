-- ===== src/BitVec/Valid.antt =====
-- The words of a bit vector are 64-bit words.
use rupta_fork.Base.{
  ℕ, ◌+◌, ◌-◌, ◌/◌, ◌%◌, ◌^◌, ◌<◌, List, [], ◌∷◌, arith, get_or, All, resize-All, get_or-All,
  set-All, bit_or, bit_and,
}
use rupta_fork.Bits.{bit_or-lt, bit_and-le, pow_lt}
use rupta_fork.BitVec.{BitVec, ensure, new_empty, insert, remove, complement, from_loop, from_vec}

abbrev pub IsWord : ℕ → Type 0
IsWord w = w < 2 ^ 64

abbrev pub IsValid : BitVec → Type 0
IsValid b = All IsWord b.words

pub word_at : (b : BitVec) (i : ℕ) → IsValid b → get_or b.words i 0 < 2 ^ 64
word_at b i v = get_or-All IsWord b.words i 0 (omega arith) v

pub or-IsWord : (a b : ℕ) → IsWord a → IsWord b → IsWord (bit_or a b)
or-IsWord a b p q = bit_or-lt 64 a b p q

pub and-IsWord : (a b : ℕ) → IsWord a → IsWord (bit_and a b)
and-IsWord a b p = omega (arith, bit_and-le 64 a b p)

mask-IsWord : (x : ℕ) → IsWord (2 ^ (x % 64))
mask-IsWord x = pow_lt 64 (x % 64) (omega arith)

pub ensure-IsValid : (b : BitVec) (cap : ℕ) → IsValid b → IsValid (ensure b cap)
unfolding ensure
ensure-IsValid b cap v =
    ground (arith, resize-All IsWord b.words ((cap + 64 - 1) / 64) 0 (omega arith) v)

pub insert-IsValid : (b : BitVec) (x : ℕ) → IsValid b → IsValid (insert b x).0
unfolding insert
insert-IsValid b x v =
    set-All IsWord (ensure b (x + 1)).words (x / 64) _
      (or-IsWord _ _ (word_at (ensure b (x + 1)) (x / 64) (ensure-IsValid b (x + 1) v))
        (mask-IsWord x))
      (ensure-IsValid b (x + 1) v)

pub remove-IsValid : (b : BitVec) (x : ℕ) → IsValid b → IsValid (remove b x).0
unfolding remove
remove-IsValid b x v = ground (
  arith,
  set-All IsWord b.words (x / 64) (bit_and (get_or b.words (x / 64) 0) (complement (2 ^ (x % 64))))
      (and-IsWord _ _ (word_at b (x / 64) v)) v,
)

pub from_loop-IsValid : (b : BitVec) (xs : List ℕ) → IsValid b → IsValid (from_loop b xs)
unfolding from_loop
from_loop-IsValid b [] v = v
from_loop-IsValid b (x ∷ xs) v = from_loop-IsValid (insert b x).0 xs (insert-IsValid b x v)

-- The vector built from a list has words of 64 bits.
pub from_vec-IsValid : (xs : List ℕ) → IsValid (from_vec xs)
unfolding from_vec new_empty
from_vec-IsValid xs = from_loop-IsValid (record { words = [] }) xs tt
