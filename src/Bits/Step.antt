-- ===== src/Bits/Step.antt =====
-- One equation for the lowest digit of `^`, `&` and `|`, from the native operations' meaning as a
-- recursion on halves that carries fuel.
use Prim.Native.Nat.{digits, bitwise, differ, bit_and-bitwise, bit_or-bitwise, bit_xor-bitwise}
use rupta_fork.Base.{
  ℕ, zero, suc, ◌+◌, ◌-◌, ◌*◌, ◌/◌, ◌%◌, ◌≤◌, ◌<◌, bit_and, bit_or, bit_xor, max, min, ◌≡◌, refl,
  ap, ◌∙◌, arith,
}

-- The equations for a left operand 0.
pub zero-xor : (w : ℕ) → bit_xor 0 w ≡ w
zero-xor w = simp bit_xor-bitwise (omega arith)

pub zero-or : (w : ℕ) → bit_or 0 w ≡ w
zero-or w = simp bit_or-bitwise (omega arith)

pub zero-and : (w : ℕ) → bit_and 0 w ≡ 0
zero-and w = simp bit_and-bitwise (omega arith)

module _ (rest : ℕ → ℕ) (on_digits : ℕ → ℕ → ℕ) where
  -- A round more than the operand asks for changes nothing.
  one_more :
      (fuel v w : ℕ)
      → v ≤ fuel
      → digits rest on_digits (suc fuel) v w ≡ digits rest on_digits fuel v w
  one_more (suc fuel) zero w enough = refl
  one_more zero zero w enough = refl
  one_more zero (suc v) w enough = absurd (omega arith)
  one_more (suc fuel) (suc v) w enough =
      ap (λ (high : ℕ). high * 2 + on_digits (suc v % 2) (w % 2))
        (one_more fuel (suc v / 2) (w / 2) (omega arith))

  many_more :
      (spare fuel v w : ℕ)
      → spare + v ≡ fuel
      → digits rest on_digits fuel v w ≡ bitwise rest on_digits v w
  many_more zero fuel v w e = ap (λ n. digits rest on_digits n v w) (omega arith)
  many_more (suc spare) zero v w e = absurd (omega arith)
  many_more (suc spare) (suc fuel) v w e =
      one_more fuel v w (omega arith) ∙ many_more spare fuel v w (omega arith)

  low_digit :
      (v w : ℕ)
      → bitwise rest on_digits (suc v) w
        ≡ bitwise rest on_digits (suc v / 2) (w / 2) * 2 + on_digits (suc v % 2) (w % 2)
  low_digit v w =
      ap (λ (high : ℕ). high * 2 + on_digits (suc v % 2) (w % 2))
        (many_more (v - suc v / 2) v (suc v / 2) (w / 2) (omega arith))

-- Two digits differ when their sum is odd.
differ_odd : (x y : ℕ) → x < 2 → y < 2 → differ x y ≡ (x + y) % 2
differ_odd zero zero h g = refl
differ_odd zero (suc y) h g = let one : y ≡ 0 = omega arith in rw one refl
differ_odd (suc x) zero h g = let one : x ≡ 0 = omega arith in rw one refl
differ_odd (suc x) (suc y) h g =
    let (first, second) : (x ≡ 0) × (y ≡ 0) = omega arith in rw (first, second) refl

pub bit_xor_step : (v w : ℕ) → bit_xor v w ≡ bit_xor (v / 2) (w / 2) * 2 + (v % 2 + w % 2) % 2
bit_xor_step zero w = omega (arith, zero-xor w, zero-xor (w / 2))
bit_xor_step (suc v) w = simp bit_xor-bitwise (
    omega (
      arith,
      low_digit (λ y. y) differ v w,
      differ_odd (suc v % 2) (w % 2) (omega arith) (omega arith),
    ))

pub bit_and_step : (v w : ℕ) → bit_and v w ≡ bit_and (v / 2) (w / 2) * 2 + min (v % 2) (w % 2)
bit_and_step zero w = omega (arith, zero-and w, zero-and (w / 2))
bit_and_step (suc v) w = simp bit_and-bitwise (low_digit (λ _. 0) min v w)

pub bit_or_step : (v w : ℕ) → bit_or v w ≡ bit_or (v / 2) (w / 2) * 2 + max (v % 2) (w % 2)
bit_or_step zero w = omega (arith, zero-or w, zero-or (w / 2))
bit_or_step (suc v) w = simp bit_or-bitwise (low_digit (λ y. y) max v w)
