-- ===== src/BitVec/Ops.antt =====
-- `union`, `subtract` and `intersect` against the set of elements.
use rupta_fork.Base.{
  ℕ, suc, ◌+◌, ◌*◌, ◌/◌, ◌%◌, ◌<◌, ◌≡◌, ◌↔◌, refl, sym, ap, ap₂, ◌∙◌, List, [], ◌∷◌, Bool, false,
  not, ◌&&◌, ◌||◌, arith, leb, length, get_or, All, bit_and, bit_or, max,
}
use rupta_fork.Bits.{bit, bit-le, bit-or, bit-and, bit-complement, bit_ext}
use rupta_fork.BitVec.{
  BitVec, capacity, contains, ensure, complement, bitwise, union, subtract, intersect,
}
use rupta_fork.BitVec.Member.{
  digit, digit_beyond, member, contains-member, digit_at, digit-ensure, length-ensure,
  contains-ensure,
}
use rupta_fork.BitVec.Valid.{IsWord, IsValid, word_at, or-IsWord, and-IsWord, ensure-IsValid}
use rupta_fork.BitVec.Bitwise.{bitwise_at, bitwise-length, bitwise-IsWord, bitwise_unchanged}

pub digit-union :
    (a b : BitVec) (x : ℕ) → digit (union a b).0.words x ≡ max (digit a.words x) (digit b.words x)
unfolding union
digit-union a b x = ground (
  arith,
  bitwise_at bit_or (ensure a (capacity b.words)).words b.words (x / 64),
  bit-or (x % 64) (get_or (ensure a (capacity b.words)).words (x / 64) 0)
      (get_or b.words (x / 64) 0),
  digit-ensure a (capacity b.words) x,
  length-ensure a (capacity b.words),
  digit_beyond b.words x,
)

-- The union of two bit vectors of any lengths holds exactly the elements of both.
pub contains-union :
    (a b : BitVec) (x : ℕ) → contains (union a b).0 x ≡ (contains a x || contains b x)
contains-union a b x =
    rw (contains-member (union a b).0 x, contains-member a x, contains-member b x)
      (ground (
        arith,
        digit-union a b x,
        bit-le (x % 64) (get_or a.words (x / 64) 0),
        bit-le (x % 64) (get_or b.words (x / 64) 0),
      ))

-- When the second vector has 64-bit words, `subtract` holds exactly the elements of the first
-- vector that the second lacks, whatever their lengths.
pub contains-subtract :
    (a b : BitVec) (x : ℕ)
    → IsValid b
    → contains (subtract a b).0 x ≡ (contains a x && not (contains b x))
unfolding subtract
contains-subtract a b x v =
    rw
      (
        contains-member
            (record { words = (bitwise (λ x y. bit_and x (complement y)) a.words b.words).0 }) x,
        contains-member a x,
        contains-member b x,
      )
      (ground (
        arith,
        bitwise_at (λ x y. bit_and x (complement y)) a.words b.words (x / 64),
        bit-and (x % 64) (get_or a.words (x / 64) 0) (complement (get_or b.words (x / 64) 0)),
        bit-complement 64 (x % 64) (get_or b.words (x / 64) 0),
        word_at b (x / 64) v,
        bit-le (x % 64) (get_or a.words (x / 64) 0),
        bit-le (x % 64) (get_or b.words (x / 64) 0),
        digit_beyond a.words x,
        digit_beyond b.words x,
      ))

-- Elements of words that `b` does not have are kept.
pub contains-intersect :
    (a b : BitVec) (x : ℕ)
    → contains (intersect a b).0 x ≡ (contains a x && (contains b x || leb (capacity b.words) x))
unfolding intersect
contains-intersect a b x =
    rw
      (
        contains-member (record { words = (bitwise bit_and a.words b.words).0 }) x,
        contains-member a x,
        contains-member b x,
      )
      (ground (
        arith,
        bitwise_at bit_and a.words b.words (x / 64),
        bit-and (x % 64) (get_or a.words (x / 64) 0) (get_or b.words (x / 64) 0),
        bit-le (x % 64) (get_or a.words (x / 64) 0),
        bit-le (x % 64) (get_or b.words (x / 64) 0),
        digit_beyond a.words x,
        digit_beyond b.words x,
      ))

-- Valid words are equal if they have the same digits.
words_ext :
    (xs ys : List ℕ)
    → All IsWord xs
    → All IsWord ys
    → length xs ≡ length ys
    → ((i k : ℕ) → k < 64 → bit k (get_or xs i 0) ≡ bit k (get_or ys i 0))
    → xs ≡ ys
words_ext [] [] v w e h = refl
words_ext [] (y ∷ ys) v w e h = absurd (omega arith)
words_ext (x ∷ xs) [] v w e h = absurd (omega arith)
words_ext (x ∷ xs) (y ∷ ys) v w e h =
    ap₂ ◌∷◌ (bit_ext 64 x y v.0 w.0 (h 0)) (words_ext xs ys v.1 w.1 (omega arith) (λ i. h (suc i)))

digit_of_member : (xs ys : List ℕ) (x : ℕ) → member xs x ≡ member ys x → digit xs x ≡ digit ys x
digit_of_member xs ys x h =
    ground (arith, bit-le (x % 64) (get_or xs (x / 64) 0), bit-le (x % 64) (get_or ys (x / 64) 0))

-- Valid vectors of one length are equal if they contain the same elements.
pub contains_ext :
    (a b : BitVec)
    → IsValid a
    → IsValid b
    → length a.words ≡ length b.words
    → ((x : ℕ) → contains a x ≡ contains b x)
    → a.words ≡ b.words
contains_ext a b v w e h = words_ext a.words b.words v w e λ i k below.
    sym (digit_at a.words i k below)
    ∙ digit_of_member a.words b.words (i * 64 + k)
        (sym (contains-member a (i * 64 + k)) ∙ h (i * 64 + k) ∙ contains-member b (i * 64 + k))
    ∙ digit_at b.words i k below

-- `changed` stays down exactly when the elements of `r` are those of `b`.
abbrev pub Reports : BitVec → BitVec → Bool → Type 0
Reports b r changed = (changed ≡ false) ↔ ((x : ℕ) → contains r x ≡ contains b x)

bitwise-Reports :
    (op : ℕ → ℕ → ℕ) (a b : BitVec)
    → ((x y : ℕ) → IsWord x → IsWord y → IsWord (op x y))
    → IsValid a
    → IsValid b
    → Reports a (record { words = (bitwise op a.words b.words).0 }) (bitwise op a.words b.words).1
bitwise-Reports op a b closed v w =
    let iff = bitwise_unchanged op closed a.words b.words v w in
    (
      (λ e x. ap (λ ws. contains (record { words = ws }) x) (iff.0 e)),
      (λ h. iff.1 (
          contains_ext (record { words = (bitwise op a.words b.words).0 }) a
            (bitwise-IsWord op closed a.words b.words v w) v (bitwise-length op a.words b.words)
            h)),
    )

pub union-IsValid : (a b : BitVec) → IsValid a → IsValid b → IsValid (union a b).0
unfolding union
union-IsValid a b v w =
    bitwise-IsWord bit_or or-IsWord (ensure a (capacity b.words)).words b.words
      (ensure-IsValid a (capacity b.words) v) w

pub subtract-IsValid : (a b : BitVec) → IsValid a → IsValid b → IsValid (subtract a b).0
unfolding subtract
subtract-IsValid a b v w =
    bitwise-IsWord (λ x y. bit_and x (complement y)) (λ x y p q. and-IsWord x (complement y) p)
      a.words b.words v w

pub intersect-IsValid : (a b : BitVec) → IsValid a → IsValid b → IsValid (intersect a b).0
unfolding intersect
intersect-IsValid a b v w = bitwise-IsWord bit_and (λ x y p q. and-IsWord x y p) a.words b.words v w

-- For vectors of 64-bit words, the flag of `union` is down exactly when the elements of the
-- first vector stay as they were.
pub union-Reports : (a b : BitVec) → IsValid a → IsValid b → Reports a (union a b).0 (union a b).1
unfolding union
union-Reports a b v w =
    let iff =
      bitwise-Reports bit_or (ensure a (capacity b.words)) b or-IsWord
        (ensure-IsValid a (capacity b.words) v) w in
    (
      (λ e x. iff.0 e x ∙ contains-ensure a (capacity b.words) x),
      (λ h. iff.1 (λ x. h x ∙ sym (contains-ensure a (capacity b.words) x))),
    )

pub subtract-Reports :
    (a b : BitVec) → IsValid a → IsValid b → Reports a (subtract a b).0 (subtract a b).1
unfolding subtract
subtract-Reports a b v w =
    bitwise-Reports (λ x y. bit_and x (complement y)) a b (λ x y p q. and-IsWord x (complement y) p)
      v w

pub intersect-Reports :
    (a b : BitVec) → IsValid a → IsValid b → Reports a (intersect a b).0 (intersect a b).1
unfolding intersect
intersect-Reports a b v w = bitwise-Reports bit_and a b (λ x y p q. and-IsWord x y p) v w
