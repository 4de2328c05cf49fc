-- ===== src/Strategy/Extend.antt =====
-- A new context is the new element in front of the context it extends, cut to the limit.
use rupta_fork.Base.{ℕ, some, ◌≡◌, ◌≤◌, ◌∷◌, ◌∙◌, sym, refl, inl, inr, take, get_elem?, subst, []}
use rupta_fork.Context
use rupta_fork.Context.{Context, IndexVec, ContextCache, len}
use rupta_fork.Context.Limit.{new_k_limited_context-take, len-new_k_limited_context}
use rupta_fork.Context.Cache.{IsValid, get_context_id-Interns, new_cache-IsValid}
use rupta_fork.Strategy.{KLimited, new, get_context_id, new_context}

module _ {E : Type 0} (dec : Discrete (Context E)) (I : IndexVec (Context E)) where
  open I use {Vec}

  -- The cache is sound, and none of its contexts is longer than the limit.
  pub record IsLimited (s : KLimited E Vec) : Type 0 where
    pub cached : IsValid dec I s.ctx_cache
    pub limited :
        (id : ℕ) (ctx : Context E)
        → Context.get_context dec I s.ctx_cache id ≡ some ctx
        → len ctx ≤ s.k

  pub new-IsLimited : (k : ℕ) → IsLimited (new dec I k)
  unfolding new Context.new_cache Context.get_context
  new-IsLimited k = record {
    cached = new_cache-IsValid dec I;
    limited = λ id ctx e.
        let e' : get_elem? [] id ≡ some ctx =
          rw I.items-empty at (sym (I.get-items I.empty id) ∙ e) in
        absurd (cc);
  }

  -- A context within the limit can be given an index.
  pub get_context_id-IsLimited :
      (s : KLimited E Vec) (ctx : Context E)
      → IsLimited s
      → len ctx ≤ s.k
      → IsLimited (get_context_id dec I s ctx).0
  unfolding get_context_id
  get_context_id-IsLimited s ctx v h =
      let interns = get_context_id-Interns dec I s.ctx_cache v.cached ctx in
      record {
        cached = interns.valid;
        limited = λ id x e. elim (interns.added x id e) [
          | inl old ↦ v.limited id x old
          | inr q ↦ subst (λ c. len c ≤ s.k) (sym q) h
        ];
      }

  pub get_context-get_context_id :
      (s : KLimited E Vec) (ctx : Context E)
      → IsLimited s
      → let r = get_context_id dec I s ctx in
        Context.get_context dec I (r.0).ctx_cache r.1 ≡ some ctx
  unfolding get_context_id
  get_context-get_context_id s ctx v = (get_context_id-Interns dec I s.ctx_cache v.cached ctx).found

  module _ (s : KLimited E Vec) (cid : ℕ) (caller : Context E) (elem : E) where
    -- `new_context` gave the state and the index of `r`: the context of the index is that of
    -- index `cid` with `elem` in front, cut to the limit, the other indices mean what they meant,
    -- the limit is the same, and the state stays sound.
    pub record Extends (r : KLimited E Vec × ℕ) : Type 0 where
      pub context : Context E
      pub found : Context.get_context dec I (r.0).ctx_cache r.1 ≡ some context
      pub extended : context.context_elems ≡ take s.k (elem ∷ caller.context_elems)
      pub kept :
          (x : Context E) (id : ℕ)
          → Context.get_context dec I s.ctx_cache id ≡ some x
          → Context.get_context dec I (r.0).ctx_cache id ≡ some x
      pub same_limit : (r.0).k ≡ s.k
      pub valid : IsLimited r.0

    -- When the cache is sound, no context in it is above the limit, and it has the caller's
    -- context at the given index, `new_context` does not panic: the context of the resulting
    -- index is the element in front of the caller's context, cut to the limit; every index of
    -- before keeps its context, the limit is the same, the cache stays sound, and no context in
    -- it is above the limit.
    pub new_context-Extends :
        IsLimited s
        → Context.get_context dec I s.ctx_cache cid ≡ some caller
        → (r : KLimited E Vec × ℕ) × (new_context dec I s cid elem ≡ some r) × Extends r
    unfolding new_context get_context_id
    new_context-Extends v h = (
      get_context_id dec I s (Context.new_k_limited_context caller elem s.k),
      rw (h, new_context) refl,
      let callee = Context.new_k_limited_context caller elem s.k in
          let interns = get_context_id-Interns dec I s.ctx_cache v.cached callee in
          record {
            context = callee;
            found = interns.found;
            extended = new_k_limited_context-take caller elem s.k;
            kept = interns.kept;
            same_limit = refl;
            valid = get_context_id-IsLimited s callee v (len-new_k_limited_context caller elem s.k);
          },
    )
