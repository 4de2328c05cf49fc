-- ===== src/BitVec/Iter.antt =====
-- `BitIter`, the list of the elements and `count`.
use rupta_fork.Base.{
  ℕ, zero, suc, ◌+◌, ◌%◌, ◌^◌, ◌≤◌, ◌<◌, ◌≡◌, ◌≢◌, refl, ap, ◌∙◌, List, [], ◌∷◌, ◌++◌, true, false,
  Option, none, some, arith, ◌==◌, length, take, All, bit_xor, take_of_length-le, ℕ_discrete, has,
  Ascending,
}
use rupta_fork.Bits.{bit_xor-lt, pow_lt}
use rupta_fork.BitVec.{
  BitVec, BitIter, capacity, contains, count, iter, zeros, trailing_zeros, next, next_loop,
  next_in_word, collect, to_list, word_mod,
}
use rupta_fork.BitVec.Valid.{IsWord, IsValid}
use rupta_fork.BitVec.Elements.{
  positions, elements, IsSized, positions_next, positions-zero, zeros-lt, length-elements,
  count_words-le, has-elements_iff, Ascending-elements,
}

-- What an iterator has still to visit.
pub remaining : BitIter → List ℕ
remaining it = positions 64 it.offset it.word ++ elements ((it.offset + 64) % word_mod) it.iter

abbrev IsIter : BitIter → Type 0
IsIter it = IsWord it.word × All IsWord it.iter

-- One call of `next` takes the first of the remaining elements, if there is one.
data Advances (r : Option ℕ × BitIter) : List ℕ → Type 0 where
  stops : r.0 ≡ none → Advances r []
  visits :
      (x : ℕ) (xs : List ℕ) → r.0 ≡ some x → remaining r.1 ≡ xs → IsIter r.1 → Advances r (x ∷ xs)

nonzero : (w : ℕ) → w ≢ 0 → (w == 0) ≡ false
nonzero w h = ground arith

next_in_word-Advances :
    (w off : ℕ) (ws : List ℕ)
    → IsWord w
    → w ≢ 0
    → All IsWord ws
    → Advances (next_in_word w off ws) (positions 64 off w ++ elements ((off + 64) % word_mod) ws)
unfolding next_in_word remaining trailing_zeros
next_in_word-Advances w off ws v ne vs =
    let z = zeros 64 w in
    let cleared : IsWord (bit_xor w (2 ^ z)) =
      bit_xor-lt 64 w (2 ^ z) v (pow_lt 64 z (zeros-lt 64 w v ne)) in
    rw (positions_next 64 off w v ne) (visits (z + off) _ refl refl (cleared, vs))

next_loop-Advances :
    (w off : ℕ) (ws : List ℕ)
    → IsWord w
    → All IsWord ws
    → Advances (next_loop w off ws) (positions 64 off w ++ elements ((off + 64) % word_mod) ws)
unfolding next_loop elements
next_loop-Advances w off [] v vs = elim (ℕ_discrete w 0) [
  | yes z ↦ rw (z, positions-zero 64 off) (stops refl)
  | no nz ↦ rw (nonzero w nz, next_loop) (next_in_word-Advances w off [] v nz tt)
]
next_loop-Advances w off (u ∷ ws) v vs = elim (ℕ_discrete w 0) [
  | yes z ↦
      rw (z, positions-zero 64 off) (next_loop-Advances u ((off + 64) % word_mod) ws vs.0 vs.1)
  | no nz ↦ rw (nonzero w nz, next_loop) (next_in_word-Advances w off (u ∷ ws) v nz vs)
]

take_visits :
    (fuel : ℕ) (r : Option ℕ × BitIter) (xs : List ℕ)
    → Advances r xs
    → (IsIter r.1 → collect fuel r.1 ≡ take fuel (remaining r.1))
    → elim r.0 [ none ↦ [] | some x ↦ x ∷ collect fuel r.1 ] ≡ take (suc fuel) xs
take_visits fuel r xs (stops e) ih = rw e
take_visits fuel r xs (visits x rest e left v) ih = rw (e, ih v, left)

-- A `for` loop sees the remaining elements in order, as many as it has rounds.
pub collect-take :
    (fuel : ℕ) (it : BitIter) → IsIter it → collect fuel it ≡ take fuel (remaining it)
unfolding collect
collect-take zero it v = refl
collect-take (suc fuel) it v =
    take_visits fuel (next it) (remaining it)
      (unfold next remaining in next_loop-Advances it.word it.offset it.iter v.0 v.1)
      (collect-take fuel (next it).1)

-- For a vector of 64-bit words, a loop over the iterator visits the list of the elements and
-- ends, if it is given at least as many rounds as `count` says.
pub collect-elements :
    (b : BitVec) (fuel : ℕ)
    → IsValid b
    → count b ≤ fuel
    → collect fuel (iter b) ≡ elements 0 b.words
unfolding iter remaining count
collect-elements b fuel v h =
    collect-take fuel (iter b) (omega arith, v)
    ∙ ap (take fuel) (ap (λ p. p ++ elements 0 b.words) (positions-zero 64 18446744073709551552))
    ∙ take_of_length-le fuel (elements 0 b.words) (omega (arith, length-elements 0 b.words))

pub to_list-elements : (b : BitVec) → IsValid b → to_list b ≡ elements 0 b.words
unfolding to_list count
to_list-elements b v =
    collect-elements b (capacity b.words + 1) v (omega (arith, count_words-le b.words))

-- The iterator visits the elements and nothing else.
pub has-to_list : (b : BitVec) (x : ℕ) → IsValid b → IsSized b → has (to_list b) x ≡ contains b x
has-to_list b x v w = rw (to_list-elements b v) (has-elements_iff b x w)

-- For a vector of 64-bit words whose bits number at most 2^64, the iterator visits the elements
-- in strictly ascending order.
pub Ascending-to_list : (b : BitVec) → IsValid b → IsSized b → Ascending 0 (to_list b)
Ascending-to_list b v w = rw (to_list-elements b v) (Ascending-elements b w)

-- `count` counts the elements.
pub length-to_list : (b : BitVec) → IsValid b → length (to_list b) ≡ count b
unfolding count
length-to_list b v = rw (to_list-elements b v) (length-elements 0 b.words)

pub contains-lt : (b : BitVec) (x : ℕ) → contains b x ≡ true → x < capacity b.words
unfolding contains
contains-lt b x h = ground arith
