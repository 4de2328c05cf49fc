-- ===== src/Bits/Masks.antt =====
-- The masks of one digit, `1 << k` and `!(1 << k)`, against a word.
use native.Mathlib.Nat.{pow-suc, one-le-pow, le_refl}
use rupta_fork.Base.{
  ℕ, zero, suc, ◌+◌, ◌-◌, ◌*◌, ◌/◌, ◌%◌, ◌^◌, ◌≤◌, ◌<◌, bit_and, bit_or, bit_xor, ◌≡◌, ap, arith,
  not, ◌==◌, ◌⊎◌, ◌↔◌, inl, inr, Bool-cases, eq_of_==, if◌then◌else◌,
}
use rupta_fork.Bits.Step.{bit_and_step, bit_or_step, bit_xor_step, zero-and, zero-or, zero-xor}
use rupta_fork.Bits.Bit.{bit, bit-le, bit_ext, bit-and, bit-pow, bit-complement, bit_and-le}

bit_cases : (k w : ℕ) → (bit k w ≡ 0) ⊎ (bit k w ≡ 1)
bit_cases k w = omega (arith, bit-le k w)

pub pow_lt : (n k : ℕ) → k < n → 2 ^ k < 2 ^ n
pow_lt zero k h = absurd (omega arith)
pow_lt (suc n) zero h = omega (arith, pow-suc 2 n, one-le-pow n 2)
pow_lt (suc n) (suc k) h = omega (arith, pow-suc 2 n, pow-suc 2 k, pow_lt n k (omega arith))

half_pow : (k : ℕ) → 2 ^ suc k / 2 ≡ 2 ^ k
half_pow k = omega (arith, pow-suc 2 k)

double : (b k : ℕ) → b * 2 ^ suc k ≡ 2 * (b * 2 ^ k)
double b k = omega (arith, ap (λ (t : ℕ). b * t) (pow-suc 2 k))

and-zero_below : (n a : ℕ) → a ≤ n → bit_and a 0 ≡ 0
and-zero_below n zero h = zero-and 0
and-zero_below zero (suc a) h = absurd (omega arith)
and-zero_below (suc n) (suc a) h =
    omega (arith, bit_and_step (suc a) 0, and-zero_below n (suc a / 2) (omega arith))

pub and-zero : (a : ℕ) → bit_and a 0 ≡ 0
and-zero a = and-zero_below a a (le_refl a)

or-zero_below : (n a : ℕ) → a ≤ n → bit_or a 0 ≡ a
or-zero_below n zero h = zero-or 0
or-zero_below zero (suc a) h = absurd (omega arith)
or-zero_below (suc n) (suc a) h =
    omega (arith, bit_or_step (suc a) 0, or-zero_below n (suc a / 2) (omega arith))

pub or-zero : (a : ℕ) → bit_or a 0 ≡ a
or-zero a = or-zero_below a a (le_refl a)

xor-zero_below : (n a : ℕ) → a ≤ n → bit_xor a 0 ≡ a
xor-zero_below n zero h = zero-xor 0
xor-zero_below zero (suc a) h = absurd (omega arith)
xor-zero_below (suc n) (suc a) h =
    omega (arith, bit_xor_step (suc a) 0, xor-zero_below n (suc a / 2) (omega arith))

pub xor-zero : (a : ℕ) → bit_xor a 0 ≡ a
xor-zero a = xor-zero_below a a (le_refl a)

-- `w & (1 << k)`
pub and-pow : (k w : ℕ) → bit_and w (2 ^ k) ≡ bit k w * 2 ^ k
unfolding bit
and-pow zero w = omega (arith, bit_and_step w 1, and-zero (w / 2))
and-pow (suc k) w = omega (
  arith,
  bit_and_step w (2 ^ suc k),
  half_pow k,
  ap (bit_and (w / 2)) (half_pow k),
  pow-suc 2 k,
  and-pow k (w / 2),
  double (bit k (w / 2)) k,
)

-- `w | (1 << k)`
pub or-pow : (k w : ℕ) → bit_or w (2 ^ k) ≡ w + (1 - bit k w) * 2 ^ k
unfolding bit
or-pow zero w = omega (arith, bit_or_step w 1, or-zero (w / 2))
or-pow (suc k) w = omega (
  arith,
  bit_or_step w (2 ^ suc k),
  half_pow k,
  ap (bit_or (w / 2)) (half_pow k),
  pow-suc 2 k,
  or-pow k (w / 2),
  double (1 - bit k (w / 2)) k,
)

-- `w ^ (1 << k)`
pub xor-pow_half : (k w : ℕ) → bit_xor w (2 ^ suc k) ≡ bit_xor (w / 2) (2 ^ k) * 2 + w % 2
xor-pow_half k w =
    omega (
      arith,
      bit_xor_step w (2 ^ suc k),
      half_pow k,
      pow-suc 2 k,
      ap (bit_xor (w / 2)) (half_pow k),
    )

pub xor-one : (w : ℕ) → w % 2 ≡ 1 → bit_xor w 1 ≡ w / 2 * 2
xor-one w h = omega (arith, bit_xor_step w 1, xor-zero (w / 2))

-- The test `w & mask != 0` reads the digit.
pub test_mask : (k w : ℕ) → not (bit_and w (2 ^ k) == 0) ≡ (bit k w == 1)
test_mask k w = elim (bit_cases k w) [
  | inl e ↦ ground (arith, and-pow k w)
  | inr e ↦ ground (arith, and-pow k w, one-le-pow k 2)
]

-- `w | mask` differs from `w` exactly where the digit is 0.
pub or_mask_changes : (k w : ℕ) → not (bit_or w (2 ^ k) == w) ≡ not (bit k w == 1)
or_mask_changes k w = elim (bit_cases k w) [
  | inl e ↦ ground (arith, or-pow k w, one-le-pow k 2)
  | inr e ↦ ground (arith, or-pow k w)
]

-- `!(1 << k)`, in a word of n digits.
pub bit-complement_mask :
    (n k j : ℕ) → k < n → j < n → bit k (2 ^ n - 1 - 2 ^ j) ≡ (if k == j then 0 else 1)
bit-complement_mask n k j h h' =
    ground (arith, bit-complement n k (2 ^ j), pow_lt n j h', bit-pow k j)

-- `w & !mask` differs from `w` exactly where the digit is 1.
pub and_mask_changes :
    (n k w : ℕ) → k < n → w < 2 ^ n → not (bit_and w (2 ^ n - 1 - 2 ^ k) == w) ≡ (bit k w == 1)
and_mask_changes n k w h fits = elim (bit_cases k w) [
  | inl e ↦ ground (
    arith,
    bit_ext n (bit_and w (2 ^ n - 1 - 2 ^ k)) w (omega (arith, bit_and-le n w (2 ^ n - 1 - 2 ^ k)))
        fits (same e),
  )
  | inr e ↦ elim (Bool-cases (bit_and w (2 ^ n - 1 - 2 ^ k) == w)) [
    | inl kept ↦ absurd (
        omega (
          arith,
          ap (bit k) (eq_of_== (bit_and w (2 ^ n - 1 - 2 ^ k)) w kept),
          bit-and k w (2 ^ n - 1 - 2 ^ k),
          gone,
        ))
    | inr new ↦ rw (new, e)
  ]
]
  where
    gone : bit k (2 ^ n - 1 - 2 ^ k) ≡ 0
    gone = ground (arith, bit-complement_mask n k k h h)

    same : bit k w ≡ 0 → (j : ℕ) → j < n → bit j (bit_and w (2 ^ n - 1 - 2 ^ k)) ≡ bit j w
    same e j below =
        ground
          (arith, bit-and j w (2 ^ n - 1 - 2 ^ k), bit-complement_mask n j k below h, bit-le j w)

-- `|` loses nothing.
le-or_below : (n a b : ℕ) → a ≤ n → (a ≤ bit_or a b) × (b ≤ bit_or a b)
le-or_below n zero b h = omega (arith, zero-or b)
le-or_below zero (suc a) b h = absurd (omega arith)
le-or_below (suc n) (suc a) b h =
    omega (arith, bit_or_step (suc a) b, le-or_below n (suc a / 2) (b / 2) (omega arith))

pub le-or : (a b : ℕ) → (a ≤ bit_or a b) × (b ≤ bit_or a b)
le-or a b = le-or_below a a b (le_refl a)

pub or-eq_zero_iff : (a b : ℕ) → (bit_or a b ≡ 0) ↔ ((a ≡ 0) × (b ≡ 0))
or-eq_zero_iff a b = ((λ e. omega (arith, le-or a b)), (λ h. rw (h.0, h.1)))

pub bit_and-le_right : (n a b : ℕ) → b < 2 ^ n → bit_and a b ≤ b
bit_and-le_right zero a zero p = omega (arith, and-zero a)
bit_and-le_right zero a (suc b) p = absurd (omega arith)
bit_and-le_right (suc n) a b p =
    omega (arith, bit_and_step a b, bit_and-le_right n (a / 2) (b / 2) (omega (arith, pow-suc 2 n)))

pub bit_xor-lt : (n a b : ℕ) → a < 2 ^ n → b < 2 ^ n → bit_xor a b < 2 ^ n
bit_xor-lt zero zero b p q = omega (arith, zero-xor b)
bit_xor-lt zero (suc a) b p q = absurd (omega arith)
bit_xor-lt (suc n) a b p q = omega (
  arith,
  bit_xor_step a b,
  pow-suc 2 n,
  bit_xor-lt n (a / 2) (b / 2) (omega (arith, pow-suc 2 n)) (omega (arith, pow-suc 2 n)),
)
