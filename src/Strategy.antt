-- ===== src/Strategy.antt =====
-- src/pta/strategies/context_strategy.rs: how a call chooses the context of its callee. The
-- strategies that cut contexts to a limit have one state, `KLimited`; an outer `none` stands for
-- the panic of `unwrap` where the index of the caller's or the receiver's context is not in the
-- cache. `with_stack_filter` stands with the stack filter.
pub mod ContextInsensitive
pub mod KCallSiteSensitive
pub mod KObjectSensitive
pub mod SimpleHybrid
pub mod Extend
pub mod ObjectCalls
use rupta_fork.Base.{ℕ, Option, none, some, ◌≡◌}
use mathlib.Core.Option
use rupta_fork.Context
use rupta_fork.Context.{Context, IndexVec, ContextCache}

-- `CSPath`: a path with the index of its context.
pub record CsPath (Path' : Type 0) : Type 0 where
  pub cid : ℕ
  pub path : Path'

pub data HybridCtxElem (Site Object : Type 0) : Type 0 where
  call_site : Site → HybridCtxElem Site Object
  object : Object → HybridCtxElem Site Object

pub record KLimited (E V : Type 0) : Type 0 where
  pub k : ℕ
  pub ctx_cache : ContextCache E V

module _ {E : Type 0} (dec : Discrete (Context E)) (I : IndexVec (Context E)) where
  open I use {Vec}

  unfoldable pub new : ℕ → KLimited E Vec
  new k = record { k = k; ctx_cache = Context.new_cache dec I }

  unfoldable pub get_context_id : KLimited E Vec → Context E → KLimited E Vec × ℕ
  get_context_id s context =
      let (cache, id) = Context.get_context_id dec I s.ctx_cache context in
      (record { k = s.k; ctx_cache = cache }, id)

  unfoldable pub get_context_by_id : KLimited E Vec → ℕ → Context E
  get_context_by_id s context_id = elim (Context.get_context dec I s.ctx_cache context_id) [
    | some context ↦ context
    | none ↦ Context.new_empty
  ]

  unfoldable pub get_empty_context_id : KLimited E Vec → KLimited E Vec × ℕ
  unfolding get_context_id
  get_empty_context_id s = get_context_id s Context.new_empty

  -- The body the four `new_context` methods share: `elem` in front of the context of index `cid`.
  unfoldable pub new_context : KLimited E Vec → ℕ → E → Option (KLimited E Vec × ℕ)
  unfolding get_context_id
  new_context s cid elem = elim (Context.get_context dec I s.ctx_cache cid) [
    | some caller_ctx ↦ some (get_context_id s (Context.new_k_limited_context caller_ctx elem s.k))
    | none ↦ none
  ]
