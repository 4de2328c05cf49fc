-- ===== src/BitVec/Insert.antt =====
-- `insert`, `remove` and `from_vec` against the set of elements: the result and the flag.
use rupta_fork.Base.{
  ℕ, ◌+◌, ◌/◌, ◌%◌, ◌^◌, ◌≡◌, refl, List, [], ◌∷◌, not, ◌&&◌, ◌||◌, arith, ◌==◌, if◌then◌else◌,
  get_or, has, bit_and, bit_or,
}
use rupta_fork.Bits.{
  bit-le, bit-or, bit-and, bit-pow, bit-complement_mask, or_mask_changes, and_mask_changes,
}
use rupta_fork.BitVec.{
  BitVec, contains, ensure, new_empty, insert, remove, complement, from_loop, from_vec,
}
use rupta_fork.BitVec.Member.{
  digit, digit_beyond, contains-member, digit-set, digit-ensure, length-ensure, contains-new_empty,
}
use rupta_fork.BitVec.Valid.{IsValid, word_at}

digit-insert :
    (b : BitVec) (e x : ℕ) → digit (insert b e).0.words x ≡ (if x == e then 1 else digit b.words x)
unfolding insert
digit-insert b e x = ground (
  arith,
  digit-set (ensure b (e + 1)).words (e / 64)
      (bit_or (get_or (ensure b (e + 1)).words (e / 64) 0) (2 ^ (e % 64))) x,
  length-ensure b (e + 1),
  digit-ensure b (e + 1) x,
  bit-or (x % 64) (get_or (ensure b (e + 1)).words (e / 64) 0) (2 ^ (e % 64)),
  bit-pow (x % 64) (e % 64),
  bit-le (x % 64) (get_or (ensure b (e + 1)).words (e / 64) 0),
)

pub contains-insert : (b : BitVec) (e x : ℕ) → contains (insert b e).0 x ≡ (x == e || contains b x)
contains-insert b e x =
    rw (contains-member (insert b e).0 x, contains-member b x) (ground (arith, digit-insert b e x))

-- The flag of `insert`: whether the element is new.
pub insert_changed : (b : BitVec) (e : ℕ) → (insert b e).1 ≡ not (contains b e)
unfolding insert
insert_changed b e = rw contains-member (
    ground (
      arith,
      or_mask_changes (e % 64) (get_or (ensure b (e + 1)).words (e / 64) 0),
      digit-ensure b (e + 1) e,
    ))

digit-remove :
    (b : BitVec) (e x : ℕ) → digit (remove b e).0.words x ≡ (if x == e then 0 else digit b.words x)
unfolding remove
digit-remove b e x = ground (
  arith,
  digit_beyond b.words e,
  digit-set b.words (e / 64) (bit_and (get_or b.words (e / 64) 0) (complement (2 ^ (e % 64)))) x,
  bit-and (x % 64) (get_or b.words (e / 64) 0) (complement (2 ^ (e % 64))),
  bit-complement_mask 64 (x % 64) (e % 64),
  bit-le (x % 64) (get_or b.words (e / 64) 0),
)

pub contains-remove :
    (b : BitVec) (e x : ℕ) → contains (remove b e).0 x ≡ (not (x == e) && contains b x)
contains-remove b e x =
    rw (contains-member (remove b e).0 x, contains-member b x) (ground (arith, digit-remove b e x))

-- The flag of `remove`: whether the element was there.
pub remove_changed : (b : BitVec) (e : ℕ) → IsValid b → (remove b e).1 ≡ contains b e
unfolding remove
remove_changed b e v = rw contains-member (
    ground (
      arith,
      digit_beyond b.words e,
      and_mask_changes 64 (e % 64) (get_or b.words (e / 64) 0),
      word_at b (e / 64) v,
    ))

pub contains-from_loop :
    (b : BitVec) (xs : List ℕ) (x : ℕ) → contains (from_loop b xs) x ≡ (has xs x || contains b x)
unfolding from_loop
contains-from_loop b [] x = refl
contains-from_loop b (e ∷ xs) x =
    ground (arith, contains-from_loop (insert b e).0 xs x, contains-insert b e x)

-- `from_vec` holds exactly the elements of its list.
pub contains-from_vec : (xs : List ℕ) (x : ℕ) → contains (from_vec xs) x ≡ has xs x
unfolding from_vec
contains-from_vec xs x = ground (arith, contains-from_loop new_empty xs x, contains-new_empty x)
