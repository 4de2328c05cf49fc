-- ===== src/Bits/Bit.antt =====
-- One binary digit of a word, and what the bitwise operations do to it.
use native.Mathlib.Nat.{pow-suc}
use rupta_fork.Base.{
  ℕ, zero, suc, ◌+◌, ◌-◌, ◌/◌, ◌%◌, ◌^◌, ◌≤◌, ◌<◌, bit_and, bit_or, bit_xor, max, min, ◌≡◌, refl,
  arith, ◌==◌, if◌then◌else◌,
}
use rupta_fork.Bits.Step.{bit_and_step, bit_or_step, bit_xor_step, zero-and}

-- The digit of weight 2 ^ k.
unfoldable pub bit : ℕ → ℕ → ℕ
bit zero w = w % 2
bit (suc k) w = bit k (w / 2)

pub bit-le : (k w : ℕ) → bit k w ≤ 1
unfolding bit
bit-le zero w = omega arith
bit-le (suc k) w = bit-le k (w / 2)

pub bit-zero : (k : ℕ) → bit k 0 ≡ 0
unfolding bit
bit-zero zero = refl
bit-zero (suc k) = bit-zero k

half_or : (a b : ℕ) → bit_or a b / 2 ≡ bit_or (a / 2) (b / 2)
half_or a b = omega (arith, bit_or_step a b)

half_and : (a b : ℕ) → bit_and a b / 2 ≡ bit_and (a / 2) (b / 2)
half_and a b = omega (arith, bit_and_step a b)

half_xor : (a b : ℕ) → bit_xor a b / 2 ≡ bit_xor (a / 2) (b / 2)
half_xor a b = omega (arith, bit_xor_step a b)

pub bit-or : (k a b : ℕ) → bit k (bit_or a b) ≡ max (bit k a) (bit k b)
unfolding bit
bit-or zero a b = omega (arith, bit_or_step a b)
bit-or (suc k) a b = rw half_or (bit-or k (a / 2) (b / 2))

pub bit-and : (k a b : ℕ) → bit k (bit_and a b) ≡ min (bit k a) (bit k b)
unfolding bit
bit-and zero a b = omega (arith, bit_and_step a b)
bit-and (suc k) a b = rw half_and (bit-and k (a / 2) (b / 2))

pub bit-xor : (k a b : ℕ) → bit k (bit_xor a b) ≡ (bit k a + bit k b) % 2
unfolding bit
bit-xor zero a b = omega (arith, bit_xor_step a b)
bit-xor (suc k) a b = rw half_xor (bit-xor k (a / 2) (b / 2))

half_pow : (k : ℕ) → 2 ^ suc k / 2 ≡ 2 ^ k
half_pow k = omega (arith, pow-suc 2 k)

-- The mask `1 << j` has one digit.
pub bit-pow : (k j : ℕ) → bit k (2 ^ j) ≡ (if k == j then 1 else 0)
unfolding bit
bit-pow zero zero = refl
bit-pow zero (suc j) = ground (arith, pow-suc 2 j)
bit-pow (suc k) zero = ground (arith, bit-zero k)
bit-pow (suc k) (suc j) = rw half_pow (ground (arith, bit-pow k j))

-- `!m`, for a word of n digits.
pub bit-complement : (n k m : ℕ) → k < n → m < 2 ^ n → bit k (2 ^ n - 1 - m) ≡ 1 - bit k m
unfolding bit
bit-complement zero k m h fits = absurd (omega arith)
bit-complement (suc n) zero m h fits = omega (arith, pow-suc 2 n)
bit-complement (suc n) (suc k) m h fits =
    rw (half_complement n m fits)
      (bit-complement n k (m / 2) (omega arith) (omega (arith, pow-suc 2 n)))
  where
    half_complement : (n m : ℕ) → m < 2 ^ suc n → (2 ^ suc n - 1 - m) / 2 ≡ 2 ^ n - 1 - m / 2
    half_complement n m fits = omega (arith, pow-suc 2 n)

-- A word is its digits.
pub bit_ext : (n a b : ℕ) → a < 2 ^ n → b < 2 ^ n → ((k : ℕ) → k < n → bit k a ≡ bit k b) → a ≡ b
unfolding bit
bit_ext zero a b p q h = omega arith
bit_ext (suc n) a b p q h = omega (
  arith,
  h 0 (omega arith),
  bit_ext n (a / 2) (b / 2) (omega (arith, pow-suc 2 n)) (omega (arith, pow-suc 2 n))
      (λ k below. h (suc k) (omega arith)),
)

-- The operations stay within the word.
pub bit_or-lt : (n a b : ℕ) → a < 2 ^ n → b < 2 ^ n → bit_or a b < 2 ^ n
bit_or-lt zero a b p q = omega (arith, bit_or_small a b p q)
  where
    bit_or_small : (a b : ℕ) → a < 1 → b < 1 → bit_or a b < 1
    bit_or_small zero zero p q = omega arith
    bit_or_small a b p q = absurd (omega arith)
bit_or-lt (suc n) a b p q = omega (
  arith,
  bit_or_step a b,
  pow-suc 2 n,
  bit_or-lt n (a / 2) (b / 2) (omega (arith, pow-suc 2 n)) (omega (arith, pow-suc 2 n)),
)

pub bit_and-le : (n a b : ℕ) → a < 2 ^ n → bit_and a b ≤ a
bit_and-le zero zero b p = omega (arith, zero-and b)
bit_and-le zero (suc a) b p = absurd (omega arith)
bit_and-le (suc n) a b p =
    omega (arith, bit_and_step a b, bit_and-le n (a / 2) (b / 2) (omega (arith, pow-suc 2 n)))

-- `a ^ b` is zero exactly at equal words.
pub bit_xor-eq_zero_iff : (n a b : ℕ) → a < 2 ^ n → b < 2 ^ n → (bit_xor a b == 0) ≡ (a == b)
bit_xor-eq_zero_iff zero zero zero p q = refl
bit_xor-eq_zero_iff zero zero (suc b) p q = absurd (omega arith)
bit_xor-eq_zero_iff zero (suc a) b p q = absurd (omega arith)
bit_xor-eq_zero_iff (suc n) a b p q = ground (
  arith,
  bit_xor_step a b,
  bit_xor-eq_zero_iff n (a / 2) (b / 2) (omega (arith, pow-suc 2 n)) (omega (arith, pow-suc 2 n)),
)
