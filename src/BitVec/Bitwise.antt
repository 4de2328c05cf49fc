-- ===== src/BitVec/Bitwise.antt =====
-- The loop of `bitwise`, word by word, and its flag.
use rupta_fork.Base.{
  ℕ, zero, suc, ◌≡◌, ◌↔◌, refl, sym, ap, ap₂, List, [], ◌∷◌, false, ◌&&◌, arith, ltb, ◌==◌,
  if◌then◌else◌, length, get_or, All, bit_or, bit_xor,
}
use rupta_fork.Bits.{bit_xor-eq_zero_iff, or-eq_zero_iff}
use rupta_fork.BitVec.{bitwise_loop, bitwise}
use rupta_fork.BitVec.Valid.{IsWord}

cons_head : {x y : ℕ} {xs ys : List ℕ} → (x ∷ xs) ≡ (y ∷ ys) → x ≡ y
cons_head e = cc

cons_tail : {x y : ℕ} {xs ys : List ℕ} → (x ∷ xs) ≡ (y ∷ ys) → xs ≡ ys
cons_tail e = cc

-- Where both slices have a word the operation is written; the rest of `out_vec` stays.
loop_at :
    (op : ℕ → ℕ → ℕ) (xs ys : List ℕ) (c i : ℕ)
    → get_or (bitwise_loop op xs ys c).0 i 0 ≡ (
        if ltb i (length xs) && ltb i (length ys)
        then op (get_or xs i 0) (get_or ys i 0)
        else get_or xs i 0)
unfolding bitwise_loop
loop_at op [] ys c i = ground arith
loop_at op (x ∷ xs) [] c i = ground arith
loop_at op (x ∷ xs) (y ∷ ys) c zero = ground arith
loop_at op (x ∷ xs) (y ∷ ys) c (suc i) =
    ground (arith, loop_at op xs ys (bit_or c (bit_xor x (op x y))) i)

loop-length :
    (op : ℕ → ℕ → ℕ) (xs ys : List ℕ) (c : ℕ) → length (bitwise_loop op xs ys c).0 ≡ length xs
unfolding bitwise_loop
loop-length op [] ys c = refl
loop-length op (x ∷ xs) [] c = refl
loop-length op (x ∷ xs) (y ∷ ys) c = ap suc (loop-length op xs ys (bit_or c (bit_xor x (op x y))))

pub bitwise_at :
    (op : ℕ → ℕ → ℕ) (xs ys : List ℕ) (i : ℕ)
    → get_or (bitwise op xs ys).0 i 0 ≡ (
        if ltb i (length xs) && ltb i (length ys)
        then op (get_or xs i 0) (get_or ys i 0)
        else get_or xs i 0)
unfolding bitwise
bitwise_at op xs ys i = loop_at op xs ys 0 i

pub bitwise-length : (op : ℕ → ℕ → ℕ) (xs ys : List ℕ) → length (bitwise op xs ys).0 ≡ length xs
unfolding bitwise
bitwise-length op xs ys = loop-length op xs ys 0

module _ (op : ℕ → ℕ → ℕ) (closed : (a b : ℕ) → IsWord a → IsWord b → IsWord (op a b)) where
  loop-IsWord :
      (xs ys : List ℕ) (c : ℕ)
      → All IsWord xs
      → All IsWord ys
      → All IsWord (bitwise_loop op xs ys c).0
  unfolding bitwise_loop
  loop-IsWord [] ys c v w = tt
  loop-IsWord (x ∷ xs) [] c v w = v
  loop-IsWord (x ∷ xs) (y ∷ ys) c v w =
      (closed x y v.0 w.0, loop-IsWord xs ys (bit_or c (bit_xor x (op x y))) v.1 w.1)

  pub bitwise-IsWord :
      (xs ys : List ℕ) → All IsWord xs → All IsWord ys → All IsWord (bitwise op xs ys).0
  unfolding bitwise
  bitwise-IsWord xs ys v w = loop-IsWord xs ys 0 v w

  -- `changed` stays zero exactly when every word written is the one that stood there.
  loop_unchanged :
      (xs ys : List ℕ) (c : ℕ)
      → All IsWord xs
      → All IsWord ys
      → ((bitwise_loop op xs ys c).1 ≡ 0) ↔ ((c ≡ 0) × ((bitwise_loop op xs ys c).0 ≡ xs))
  unfolding bitwise_loop
  loop_unchanged [] ys c v w = ((λ e. (e, refl)), (λ e. e.0))
  loop_unchanged (x ∷ xs) [] c v w = ((λ e. (e, refl)), (λ e. e.0))
  loop_unchanged (x ∷ xs) (y ∷ ys) c v w =
      let rest = loop_unchanged xs ys (bit_or c (bit_xor x (op x y))) v.1 w.1 in
      let zero_iff = or-eq_zero_iff c (bit_xor x (op x y)) in
      (
        (λ e.
            let (c0, same) = rest.0 e in
            ((zero_iff.0 c0).0, ap₂ ◌∷◌ (sym (kept ((zero_iff.0 c0).1))) same)),
        (λ h. rest.1 (zero_iff.1 (h.0, unchanged (sym (cons_head h.1))), cons_tail h.1)),
      )
    where
      test : (bit_xor x (op x y) == 0) ≡ (x == op x y)
      test = bit_xor-eq_zero_iff 64 x (op x y) v.0 (closed x y v.0 w.0)

      kept : bit_xor x (op x y) ≡ 0 → x ≡ op x y
      kept e = ground (arith, test)

      unchanged : x ≡ op x y → bit_xor x (op x y) ≡ 0
      unchanged e = ground (arith, test)

  -- For 64-bit words and an operation that gives 64-bit words, the accumulated flag of
  -- `bitwise` is down exactly when no word has changed.
  pub bitwise_unchanged :
      (xs ys : List ℕ)
      → All IsWord xs
      → All IsWord ys
      → ((bitwise op xs ys).1 ≡ false) ↔ ((bitwise op xs ys).0 ≡ xs)
  unfolding bitwise
  bitwise_unchanged xs ys v w =
      let iff = loop_unchanged xs ys 0 v w in
      ((λ e. (iff.0 (ground arith)).1), (λ e. ground (arith, iff.1 (refl, e))))
