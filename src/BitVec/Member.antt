-- ===== src/BitVec/Member.antt =====
-- What a bit vector holds, read off its words: the view that the laws of the operations share.
use rupta_fork.Base.{
  ℕ, ◌+◌, ◌*◌, ◌/◌, ◌%◌, ◌≤◌, ◌<◌, ◌≡◌, List, Bool, false, arith, ◌==◌, if◌then◌else◌, length,
  get_or, set, resize, get_or_beyond, get_or-set_self, get_or-set_ne, get_or-resize, length-resize,
}
use rupta_fork.Bits.{bit, bit-zero, test_mask}
use rupta_fork.BitVec.{BitVec, num_words, contains, ensure, new_empty}

-- The digit of an element in its word; beyond the words there are only zeros.
abbrev pub digit : List ℕ → ℕ → ℕ
digit words x = bit (x % 64) (get_or words (x / 64) 0)

abbrev pub member : List ℕ → ℕ → Bool
member words x = digit words x == 1

pub digit_beyond : (words : List ℕ) (x : ℕ) → length words * 64 ≤ x → digit words x ≡ 0
digit_beyond words x h = rw (get_or_beyond words (x / 64) 0 (omega arith)) (bit-zero (x % 64))

pub digit_at :
    (words : List ℕ) (i k : ℕ) → k < 64 → digit words (i * 64 + k) ≡ bit k (get_or words i 0)
digit_at words i k h =
    let q : (i * 64 + k) / 64 ≡ i = omega arith in
    let r : (i * 64 + k) % 64 ≡ k = omega arith in rw (q, r)

-- The code's bounds test and mask read the digit.
pub contains-member : (b : BitVec) (x : ℕ) → contains b x ≡ member b.words x
unfolding contains
contains-member b x =
    ground (arith, digit_beyond b.words x, test_mask (x % 64) (get_or b.words (x / 64) 0))

-- A write of one word changes the digits of that word.
pub digit-set :
    (words : List ℕ) (i v x : ℕ)
    → i < length words
    → digit (set words i v) x ≡ (if x / 64 == i then bit (x % 64) v else digit words x)
digit-set words i v x h =
    ground (arith, get_or-set_self words i v 0, get_or-set_ne words i (x / 64) v 0)

-- Filling up with zeros changes no digit.
pub digit-resize :
    (words : List ℕ) (n x : ℕ) → length words ≤ n → digit (resize words n 0) x ≡ digit words x
digit-resize words n x h = ground (
  arith,
  get_or-resize words n (x / 64) 0,
  get_or_beyond words (x / 64) 0,
  get_or_beyond (resize words n 0) (x / 64) 0,
  length-resize words n 0,
)

-- `ensure` makes room and keeps the elements.
pub length-ensure : (b : BitVec) (cap : ℕ) → num_words cap ≤ length (ensure b cap).words
unfolding ensure
length-ensure b cap = ground (arith, length-resize b.words (num_words cap) 0)

pub digit-ensure : (b : BitVec) (cap x : ℕ) → digit (ensure b cap).words x ≡ digit b.words x
unfolding ensure
digit-ensure b cap x = ground (arith, digit-resize b.words (num_words cap) x)

pub contains-ensure : (b : BitVec) (cap x : ℕ) → contains (ensure b cap) x ≡ contains b x
contains-ensure b cap x =
    rw (contains-member (ensure b cap) x, contains-member b x, digit-ensure b cap x)

pub contains-new_empty : (x : ℕ) → contains new_empty x ≡ false
unfolding contains new_empty
contains-new_empty x = ground arith
