-- ===== src/StackFilter/Match.antt =====
-- `match_suffix_and_prefix` of src/pta/strategies/stack_filtering.rs: the lists that a suffix of the
-- first and a prefix of the second have in common.
use rupta_fork.Base.{
  ℕ, zero, suc, ◌+◌, ◌-◌, ◌<◌, ◌≤◌, ◌≡◌, ◌↔◌, refl, sym, ap, ◌∙◌, List, [], ◌∷◌, ◌++◌, true, inl,
  inr, length, drop, min, arith, length-append, Bool-cases,
}
use mathlib.Core.Bool.{false≢true}
use rupta_fork.StackFilter.{zip_equal, match_from, match_suffix_and_prefix}

-- A list that is not empty ends `v1` and begins `v2`.
pub record Overlaps {E : Type 0} (v1 v2 : List E) : Type 0 where
  pub before : List E
  pub first : E
  pub rest : List E
  pub after : List E
  pub ends : v1 ≡ before ++ first ∷ rest
  pub begins : v2 ≡ (first ∷ rest) ++ after

module _ {E : Type 0} (dec : Discrete E) where
  zip_equal-append : (xs ys : List E) → zip_equal dec xs (xs ++ ys) ≡ true
  unfolding zip_equal
  zip_equal-append [] ys = refl
  zip_equal-append (x ∷ xs) ys = ground (arith, zip_equal-append xs ys)

  zip_prefix :
      (xs ys : List E)
      → zip_equal dec xs ys ≡ true
      → length xs ≤ length ys
      → (zs : List E) × (ys ≡ xs ++ zs)
  unfolding zip_equal
  zip_prefix [] ys h le = (ys, refl)
  zip_prefix (x ∷ xs) [] h le = absurd (omega arith)
  zip_prefix (x ∷ xs) (y ∷ ys) h le =
      let (first, rest) : (x ≡ y) × (zip_equal dec xs ys ≡ true) = ground arith in
      let (zs, q) = zip_prefix xs ys rest (omega arith) in
      (zs, ap (λ z. z ∷ ys) (sym first) ∙ ap (◌∷◌ x) q)

  split_at :
      (n : ℕ) (xs : List E)
      → n ≤ length xs
      → (ys : List E) × (xs ≡ ys ++ drop n xs) × (length ys ≡ n)
  split_at zero xs h = ([], refl, refl)
  split_at (suc n) [] h = absurd (omega arith)
  split_at (suc n) (x ∷ xs) h =
      let (ys, e, l) = split_at n xs (omega arith) in (x ∷ ys, ap (◌∷◌ x) e, ap suc l)

  drop-length-append : (xs ys : List E) → drop (length xs) (xs ++ ys) ≡ ys
  drop-length-append [] ys = refl
  drop-length-append (x ∷ xs) ys = drop-length-append xs ys

  overlap_at :
      (v1 v2 : List E) (i : ℕ)
      → 0 < i
      → i ≤ length v1
      → i ≤ length v2
      → zip_equal dec (drop (length v1 - i) v1) v2 ≡ true
      → Overlaps v1 v2
  overlap_at v1 v2 i pos le1 le2 h =
      let (before, e, l) = split_at (length v1 - i) v1 (omega arith) in
      let size : length (drop (length v1 - i) v1) ≡ i =
        omega (arith, ap length e, length-append before (drop (length v1 - i) v1)) in
      let (after, q) = zip_prefix (drop (length v1 - i) v1) v2 h (omega arith) in
      named (drop (length v1 - i) v1) before after e q (omega arith)
    where
      named :
          (w before after : List E)
          → v1 ≡ before ++ w
          → v2 ≡ w ++ after
          → 0 < length w
          → Overlaps v1 v2
      named [] before after e q h = absurd (omega arith)
      named (x ∷ w) before after e q h = record {
        before = before;
        first = x;
        rest = w;
        after = after;
        ends = e;
        begins = q;
      }

  match_from-Overlaps :
      (v1 v2 : List E) (i count : ℕ)
      → 0 < i
      → i + count ≤ suc (length v1)
      → i + count ≤ suc (length v2)
      → match_from dec v1 v2 i count ≡ true
      → Overlaps v1 v2
  unfolding match_from
  match_from-Overlaps v1 v2 i zero pos le1 le2 h = absurd (false≢true h)
  match_from-Overlaps v1 v2 i (suc count) pos le1 le2 h =
      elim (Bool-cases (zip_equal dec (drop (length v1 - i) v1) v2)) [
        | inl here ↦ overlap_at v1 v2 i pos (omega arith) (omega arith) here
        | inr other ↦
            match_from-Overlaps v1 v2 (suc i) count (omega arith) (omega arith) (omega arith)
              (ground arith)
      ]

  match_from_found :
      (v1 v2 : List E) (i count k : ℕ)
      → i ≤ k
      → k < i + count
      → zip_equal dec (drop (length v1 - k) v1) v2 ≡ true
      → match_from dec v1 v2 i count ≡ true
  unfolding match_from
  match_from_found v1 v2 i zero k lo hi h = absurd (omega arith)
  match_from_found v1 v2 i (suc count) k lo hi h =
      elim (Bool-cases (zip_equal dec (drop (length v1 - i) v1) v2)) [
        | inl here ↦ rw (here, match_from) refl
        | inr other ↦
            rw (other, match_from)
              (match_from_found v1 v2 (suc i) count k
                (omega (
                  arith,
                  λ (e : i ≡ k).
                      false≢true
                        (sym other ∙ ap (λ n. zip_equal dec (drop (length v1 - n) v1) v2) e ∙ h),
                ))
                (omega arith) h)
      ]

  -- `match_suffix_and_prefix` is true exactly when some list that is not empty ends the first
  -- list and begins the second.
  pub match_suffix_and_prefix_iff :
      (v1 v2 : List E) → (match_suffix_and_prefix dec v1 v2 ≡ true) ↔ Overlaps v1 v2
  unfolding match_suffix_and_prefix
  match_suffix_and_prefix_iff v1 v2 = (
    match_from-Overlaps v1 v2 1 (min (length v1) (length v2)) (omega arith) (omega arith)
        (omega arith),
    λ o.
        let w = o.first ∷ o.rest in
        let n : length v1 ≡ length o.before + length w =
          ap length o.ends ∙ length-append o.before w in
        let m : length v2 ≡ length w + length o.after =
          ap length o.begins ∙ length-append w o.after in
        let cut : drop (length v1 - length w) v1 ≡ w =
          ap (λ k. drop k v1) (omega arith)
          ∙ ap (drop (length o.before)) o.ends
          ∙ drop-length-append o.before w in
        match_from_found v1 v2 1 (min (length v1) (length v2)) (length w) (omega arith)
          (omega arith)
          (ap (λ l. zip_equal dec l v2) cut
            ∙ ap (zip_equal dec w) o.begins
            ∙ zip_equal-append w o.after),
  )
