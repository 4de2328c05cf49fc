-- ===== src/BitVec/Superset.antt =====
-- `superset` and `is_empty` decide the inclusion and the emptiness of the sets of elements.
use rupta_fork.Base.{
  ℕ, zero, suc, ◌+◌, ◌*◌, ◌/◌, ◌%◌, ◌≤◌, ◌<◌, ◌≡◌, ◌↔◌, refl, ap, List, [], ◌∷◌, true, false, ◌&&◌,
  arith, ◌==◌, length, get_or, resize, all, All, bit_and, length-resize, get_or_beyond,
  get_or-resize, eq_of_==,
}
use rupta_fork.Bits.{bit, bit-le, bit-and, bit_ext, bit-zero, bit_and-le_right}
use rupta_fork.BitVec.{BitVec, contains, superset, is_empty, all_covered}
use rupta_fork.BitVec.Member.{digit_beyond, contains-member, digit_at}
use rupta_fork.BitVec.Valid.{IsWord, IsValid}

-- `(a & b) == b` says that `a` has every digit of `b`.
covers : (a b : ℕ) → IsWord b → ((bit_and a b == b) ≡ true) ↔ ((k : ℕ) → k < 64 → bit k b ≤ bit k a)
covers a b v = (
  (λ e k h. omega (arith, bit-and k a b, ap (bit k) (eq_of_== (bit_and a b) b e))),
  (λ h. ground (
    arith,
    bit_ext 64 (bit_and a b) b (omega (arith, bit_and-le_right 64 a b v)) v
        (λ k below. omega (arith, bit-and k a b, h k below)),
  )),
)

abbrev Covers : List ℕ → List ℕ → Type 0
Covers xs ys = (i k : ℕ) → k < 64 → bit k (get_or ys i 0) ≤ bit k (get_or xs i 0)

all_covered_cons :
    (x : ℕ) (xs : List ℕ) (y : ℕ) (ys : List ℕ)
    → IsWord y
    → (all_covered xs ys ≡ true) ↔ Covers xs ys
    → (all_covered (x ∷ xs) (y ∷ ys) ≡ true) ↔ Covers (x ∷ xs) (y ∷ ys)
unfolding all_covered
all_covered_cons x xs y ys v rest = (forth, back)
  where
    forth : (bit_and x y == y && all_covered xs ys) ≡ true → Covers (x ∷ xs) (y ∷ ys)
    forth p zero k h = (covers x y v).0 (ground arith) k h
    forth p (suc i) k h = rest.0 (ground arith) i k h

    back : Covers (x ∷ xs) (y ∷ ys) → (bit_and x y == y && all_covered xs ys) ≡ true
    back h = ground (arith, (covers x y v).1 (h 0), rest.1 (λ i. h (suc i)))

all_covered_iff :
    (xs ys : List ℕ)
    → length xs ≡ length ys
    → All IsWord ys
    → (all_covered xs ys ≡ true) ↔ Covers xs ys
unfolding all_covered
all_covered_iff [] [] e v = ((λ p i k h. omega arith), (λ p. refl))
all_covered_iff [] (y ∷ ys) e v = absurd (omega arith)
all_covered_iff (x ∷ xs) [] e v = absurd (omega arith)
all_covered_iff (x ∷ xs) (y ∷ ys) e v =
    all_covered_cons x xs y ys v.0 (all_covered_iff xs ys (omega arith) v.1)

-- `superset` holds exactly when every element of `other` is one of `b`, whatever their lengths.
pub superset_iff :
    (b other : BitVec)
    → IsValid other
    → (superset b other ≡ true) ↔ ((x : ℕ) → contains other x ≡ true → contains b x ≡ true)
unfolding superset
superset_iff b other v = (
  (λ e x h. ground (
    arith,
    contains-member other x,
    contains-member b x,
    bit-le (x % 64) (get_or b.words (x / 64) 0),
    get_or-resize b.words (length other.words) (x / 64) 0,
    digit_beyond other.words x,
    iff.0 e (x / 64) (x % 64) (omega arith),
  )),
  (λ h. iff.1 (covered h)),
)
  where
    cut : List ℕ
    cut = resize b.words (length other.words) 0

    iff : (all_covered cut other.words ≡ true) ↔ Covers cut other.words
    iff = all_covered_iff cut other.words (length-resize b.words (length other.words) 0) v

    covered : ((x : ℕ) → contains other x ≡ true → contains b x ≡ true) → Covers cut other.words
    covered h i k below = ground (
      arith,
      h (i * 64 + k),
      contains-member other (i * 64 + k),
      contains-member b (i * 64 + k),
      digit_at other.words i k below,
      digit_at b.words i k below,
      bit-le k (get_or other.words i 0),
      bit-le k (get_or b.words i 0),
      get_or-resize b.words (length other.words) i 0,
      get_or_beyond other.words i 0,
      bit-zero k,
    )

zero_words :
    (ws : List ℕ)
    → All IsWord ws
    → ((i k : ℕ) → k < 64 → bit k (get_or ws i 0) ≡ 0)
    → all (λ a. a == 0) ws ≡ true
zero_words [] v h = refl
zero_words (w ∷ ws) v h = ground (
  arith,
  bit_ext 64 w 0 v.0 (omega arith) (λ k below. omega (arith, h 0 k below, bit-zero k)),
  zero_words ws v.1 (λ i. h (suc i)),
)

words_zero : (ws : List ℕ) → all (λ a. a == 0) ws ≡ true → (i : ℕ) → get_or ws i 0 ≡ 0
words_zero [] h i = refl
words_zero (w ∷ ws) h zero = ground arith
words_zero (w ∷ ws) h (suc i) = words_zero ws (ground arith) i

-- `is_empty` holds exactly when there is no element.
pub is_empty_iff : (b : BitVec) → IsValid b → (is_empty b ≡ true) ↔ ((x : ℕ) → contains b x ≡ false)
unfolding is_empty
is_empty_iff b v = (
  (λ e x. rw (contains-member b x, words_zero b.words e (x / 64), bit-zero (x % 64))),
  (λ h. zero_words b.words v λ i k below. ground (
    arith,
    h (i * 64 + k),
    contains-member b (i * 64 + k),
    digit_at b.words i k below,
    bit-le k (get_or b.words i 0),
  )),
)
