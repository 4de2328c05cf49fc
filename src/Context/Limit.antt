-- ===== src/Context/Limit.antt =====
-- The k-limited contexts against the first k elements, the newest first.
use rupta_fork.Base.{
  ℕ, zero, suc, ◌-◌, ◌≤◌, ◌≡◌, refl, sym, ap, ◌∙◌, List, [], ◌∷◌, arith, take, length-take-le,
  take_of_length-le,
}
use rupta_fork.Context.{Context, len, new_k_limited_context, k_limited_context}

module _ {E : Type 0} where
  -- `new_k_limited_context` is the first k elements of the new element followed by the old
  -- context, on each of its branches.
  pub new_k_limited_context-take :
      (old_ctx : Context E) (elem : E) (k : ℕ)
      → (new_k_limited_context old_ctx elem k).context_elems ≡ take k (elem ∷ old_ctx.context_elems)
  unfolding new_k_limited_context
  new_k_limited_context-take old_ctx elem zero = refl
  new_k_limited_context-take old_ctx elem (suc k) =
      ground (arith, take_of_length-le k old_ctx.context_elems, pred_suc k)
    where
      pred_suc : (k : ℕ) → take (suc k - 1) old_ctx.context_elems ≡ take k old_ctx.context_elems
      pred_suc k = let e : suc k - 1 ≡ k = omega arith in rw e

  pub k_limited_context-take :
      (ctx : Context E) (k : ℕ) → (k_limited_context ctx k).context_elems ≡ take k ctx.context_elems
  unfolding k_limited_context
  k_limited_context-take ctx k = ground (arith, take_of_length-le k ctx.context_elems)

  -- No context is longer than the limit.
  pub len-new_k_limited_context :
      (old_ctx : Context E) (elem : E) (k : ℕ) → len (new_k_limited_context old_ctx elem k) ≤ k
  len-new_k_limited_context old_ctx elem k =
      rw (new_k_limited_context-take old_ctx elem k)
        (length-take-le k (elem ∷ old_ctx.context_elems))

  take-take : (j k : ℕ) (xs : List E) → j ≤ k → take j (take k xs) ≡ take j xs
  take-take zero k xs h = refl
  take-take (suc j) zero xs h = absurd (omega arith)
  take-take (suc j) (suc k) [] h = refl
  take-take (suc j) (suc k) (x ∷ xs) h = ap (◌∷◌ x) (take-take j k xs (omega arith))

  -- To cut the old context to a limit of at least k first does not change the new context of
  -- limit k.
  pub new_k_limited_context-k_limited :
      (ctx : Context E) (elem : E) (j k : ℕ)
      → k ≤ j
      → (new_k_limited_context (k_limited_context ctx j) elem k).context_elems
        ≡ (new_k_limited_context ctx elem k).context_elems
  new_k_limited_context-k_limited ctx elem j zero h =
      new_k_limited_context-take (k_limited_context ctx j) elem zero
      ∙ sym (new_k_limited_context-take ctx elem zero)
  new_k_limited_context-k_limited ctx elem j (suc k) h =
      new_k_limited_context-take (k_limited_context ctx j) elem (suc k)
      ∙ ap (◌∷◌ elem) (
          ap (take k) (k_limited_context-take ctx j)
          ∙ take-take k j ctx.context_elems (omega arith))
      ∙ sym (new_k_limited_context-take ctx elem (suc k))
