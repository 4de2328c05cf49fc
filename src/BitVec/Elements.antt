-- ===== src/BitVec/Elements.antt =====
-- The elements of a bit vector as a list, in ascending order: the specification of its iterator.
use rupta_fork.Base.{
  ℕ, zero, suc, ◌+◌, ◌-◌, ◌*◌, ◌/◌, ◌%◌, ◌^◌, ◌≤◌, ◌<◌, ◌≡◌, ◌≢◌, ◌⊎◌, inl, inr, refl, ap, ◌∙◌,
  List, [], ◌∷◌, ◌++◌, ◌&&◌, arith, leb, ltb, ◌==◌, if◌then◌else◌, length, bit_xor, length-append,
  Bool-cases, has, has-append, Ascending, Ascending-mono,
}
use native.Mathlib.Nat.{pow-suc}
use rupta_fork.Bits.{bit, bit-zero, xor-one, xor-pow_half}
use rupta_fork.BitVec.{BitVec, capacity, contains, ones, count_words, count_ones, zeros, word_mod}
use rupta_fork.BitVec.Member.{digit, contains-member}

-- The digits of a word of n digits that are 1, counted from `off`.
pub positions : ℕ → ℕ → ℕ → List ℕ
positions zero off w = []
positions (suc n) off w =
    let rest = positions n (suc off) (w / 2) in if w % 2 == 1 then off ∷ rest else rest

-- The elements of the words, the first word at `off`; offsets wrap as those of `BitIter` do.
unfoldable pub elements : ℕ → List ℕ → List ℕ
elements off [] = []
elements off (w ∷ ws) = positions 64 off w ++ elements ((off + 64) % word_mod) ws

-- The bits of all words are counted by a `usize`.
abbrev pub IsSized : BitVec → Type 0
IsSized b = capacity b.words ≤ word_mod

bit_first : (off x w : ℕ) → x ≡ off → bit (x - off) w ≡ w % 2
unfolding bit
bit_first off x w e = let z : x - off ≡ 0 = omega arith in rw z

bit_later : (off x w : ℕ) → off < x → bit (x - off) w ≡ bit (x - suc off) (w / 2)
unfolding bit
bit_later off x w h = let z : x - off ≡ suc (x - suc off) = omega arith in rw z

pub has-positions :
    (n off w x : ℕ)
    → has (positions n off w) x ≡ (leb off x && ltb x (off + n) && bit (x - off) w == 1)
unfolding positions
has-positions zero off w x = ground arith
has-positions (suc n) off w x =
    ground (arith, has-positions n (suc off) (w / 2) x, bit_first off x w, bit_later off x w)

length-positions : (n off w : ℕ) → length (positions n off w) ≡ ones n w
unfolding positions ones
length-positions zero off w = refl
length-positions (suc n) off w = ground (arith, length-positions n (suc off) (w / 2))

ones-le : (n w : ℕ) → ones n w ≤ n
unfolding ones
ones-le zero w = omega arith
ones-le (suc n) w = omega (arith, ones-le n (w / 2))

-- `count_ones`, summed up, counts the elements.
pub length-elements : (off : ℕ) (ws : List ℕ) → length (elements off ws) ≡ count_words ws
unfolding elements count_words count_ones
length-elements off [] = refl
length-elements off (w ∷ ws) = omega (
  arith,
  length-append (positions 64 off w) (elements ((off + 64) % word_mod) ws),
  length-positions 64 off w,
  length-elements ((off + 64) % word_mod) ws,
)

pub count_words-le : (ws : List ℕ) → count_words ws ≤ length ws * 64
unfolding count_words count_ones
count_words-le [] = omega arith
count_words-le (w ∷ ws) = omega (arith, ones-le 64 w, count_words-le ws)

Ascending-positions :
    (n off w : ℕ) (xs : List ℕ) → Ascending (off + n) xs → Ascending off (positions n off w ++ xs)
unfolding positions
Ascending-positions zero off w xs s = Ascending-mono off (off + 0) xs (omega arith) s
Ascending-positions (suc n) off w xs s = ground (
  arith,
  Ascending-positions n (suc off) (w / 2) xs
      (Ascending-mono (suc off + n) (off + suc n) xs (omega arith) s),
  Ascending-mono off (suc off) (positions n (suc off) (w / 2) ++ xs),
)

positions-odd :
    (n off w : ℕ) → w % 2 ≡ 1 → positions (suc n) off w ≡ off ∷ positions n (suc off) (w / 2)
unfolding positions
positions-odd n off w h = ground arith

positions-even : (n off w : ℕ) → w % 2 ≡ 0 → positions (suc n) off w ≡ positions n (suc off) (w / 2)
unfolding positions
positions-even n off w h = ground arith

zeros-odd : (n w : ℕ) → w % 2 ≡ 1 → zeros (suc n) w ≡ 0
unfolding zeros
zeros-odd n w h = ground arith

zeros-even : (n w : ℕ) → w % 2 ≡ 0 → zeros (suc n) w ≡ suc (zeros n (w / 2))
unfolding zeros
zeros-even n w h = ground arith

-- The lowest digit of a word that is 1 comes first, and clearing it leaves the others.
pub positions_next :
    (n off w : ℕ)
    → w < 2 ^ n
    → w ≢ 0
    → positions n off w ≡ (zeros n w + off) ∷ positions n off (bit_xor w (2 ^ zeros n w))
positions_next zero off w h ne = absurd (ne (omega arith))
positions_next (suc n) off w h ne = elim (parity w) [
  | inl odd ↦
      let cleared = xor-one w odd in
      rw
        (
          zeros-odd n w odd,
          positions-odd n off w odd,
          cleared,
          positions-even n off (w / 2 * 2) (omega arith),
          halved (w / 2),
        )
        (ap (λ k. k ∷ positions n (suc off) (w / 2)) (omega arith))
  | inr even ↦
      let z = zeros n (w / 2) in
      let half : bit_xor w (2 ^ suc z) / 2 ≡ bit_xor (w / 2) (2 ^ z) =
        omega (arith, xor-pow_half z w) in
      rw
        (
          zeros-even n w even,
          positions-even n off w even,
          positions-even n off (bit_xor w (2 ^ suc z)) (omega (arith, xor-pow_half z w)),
          half,
        )
        (positions_next n (suc off) (w / 2) (omega (arith, pow-suc 2 n)) (omega arith)
          ∙ ap (λ k. k ∷ positions n (suc off) (bit_xor (w / 2) (2 ^ z))) (omega arith))
]
  where
    parity : (w : ℕ) → (w % 2 ≡ 1) ⊎ (w % 2 ≡ 0)
    parity w = omega arith

    halved : (h : ℕ) → h * 2 / 2 ≡ h
    halved h = omega arith

pub positions-zero : (n off : ℕ) → positions n off 0 ≡ []
unfolding positions
positions-zero zero off = refl
positions-zero (suc n) off = positions-zero n (suc off)

digit-cons :
    (w : ℕ) (ws : List ℕ) (x : ℕ)
    → digit (w ∷ ws) x ≡ (if ltb x 64 then bit x w else digit ws (x - 64))
digit-cons w ws x = elim (Bool-cases (ltb x 64)) [
  | inl low ↦
      let q : x / 64 ≡ 0 = ground arith in let r : x % 64 ≡ x = ground arith in rw (low, q, r)
  | inr high ↦
      let q : x / 64 ≡ suc ((x - 64) / 64) = ground arith in
      let r : x % 64 ≡ (x - 64) % 64 = ground arith in rw (high, q, r)
]

sub_sub : (x off : ℕ) → x - off - 64 ≡ x - (off + 64)
sub_sub x off = omega arith

-- Within the sizes of a `usize` no offset wraps.
wrap_first :
    (off : ℕ) (ws : List ℕ)
    → off + suc (length ws) * 64 ≤ word_mod
    → elements ((off + 64) % word_mod) ws ≡ elements (off + 64) ws
unfolding elements
wrap_first off [] h = refl
wrap_first off (w ∷ ws) h = let e : (off + 64) % word_mod ≡ off + 64 = omega arith in rw e

-- The list of the elements holds what the digits say.
has-elements :
    (off : ℕ) (ws : List ℕ) (x : ℕ)
    → off + length ws * 64 ≤ word_mod
    → has (elements off ws) x ≡ (leb off x && digit ws (x - off) == 1)
unfolding elements
has-elements off [] x h = ground (arith, bit-zero ((x - off) % 64))
has-elements off (w ∷ ws) x h = rw (wrap_first off ws h) (
    ground (
      arith,
      has-append (positions 64 off w) (elements (off + 64) ws) x,
      has-positions 64 off w x,
      has-elements (off + 64) ws x (omega arith),
      digit-cons w ws (x - off),
      ap (digit ws) (sub_sub x off),
    ))

-- `iter` visits exactly the elements.
pub has-elements_iff : (b : BitVec) (x : ℕ) → IsSized b → has (elements 0 b.words) x ≡ contains b x
has-elements_iff b x v = ground (arith, has-elements 0 b.words x (omega arith), contains-member b x)

Ascending-elements_from :
    (off : ℕ) (ws : List ℕ) → off + length ws * 64 ≤ word_mod → Ascending off (elements off ws)
unfolding elements
Ascending-elements_from off [] h = tt
Ascending-elements_from off (w ∷ ws) h = rw (wrap_first off ws h) (
    Ascending-positions 64 off w (elements (off + 64) ws)
      (Ascending-elements_from (off + 64) ws (omega arith)))

pub Ascending-elements : (b : BitVec) → IsSized b → Ascending 0 (elements 0 b.words)
Ascending-elements b v = Ascending-elements_from 0 b.words (omega arith)

pub zeros-lt : (n w : ℕ) → w < 2 ^ n → w ≢ 0 → zeros n w < n
unfolding zeros
zeros-lt zero w h ne = absurd (ne (omega arith))
zeros-lt (suc n) w h ne = elim (Bool-cases (w % 2 == 1)) [
  | inl odd ↦ rw odd (omega arith)
  | inr even ↦
      let half = zeros-lt n (w / 2) (omega (arith, pow-suc 2 n)) (ground arith) in
      rw even (omega arith)
]
