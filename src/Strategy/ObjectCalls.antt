-- ===== src/Strategy/ObjectCalls.antt =====
-- The calls of `KObjectSensitive`, of src/pta/strategies/context_strategy.rs.
use rupta_fork.Base.{ℕ, ◌≡◌, ap, some}
use mathlib.Core.Option
use rupta_fork.Context
use rupta_fork.Context.{Context, IndexVec}
use rupta_fork.CallSite.{CsFuncId, CallSite}
use rupta_fork.Strategy.{CsPath, KLimited}
use rupta_fork.Strategy.Extend.{IsLimited, Extends, new_context-Extends}
use rupta_fork.Strategy.KObjectSensitive.{new_context, new_instance_call_context}

module _ {Location P Object : Type 0} (dec : Discrete (Context Object))
    (I : IndexVec (Context Object)) where
  open I use {Vec}

  -- When the cache is sound, no context in it is above the limit, and it has the receiver's
  -- context at the receiver's index, a call on a receiver under object sensitivity gets an
  -- index: its context is the receiver's path in front of the receiver's context, cut to the
  -- limit; every index of before keeps its context, the limit is the same, the cache stays
  -- sound, and no context in it is above the limit.
  pub new_instance_call_context-Extends :
      (s : KLimited Object Vec) (callsite : CallSite CsFuncId Location P) (receiver : CsPath Object)
      (receiver_ctx : Context Object)
      → IsLimited dec I s
      → Context.get_context dec I s.ctx_cache receiver.cid ≡ some receiver_ctx
      → (r : KLimited Object Vec × ℕ) × (new_instance_call_context dec I s callsite (some receiver)
          ≡ some (r.0, some r.1))
        × Extends dec I s receiver.cid receiver_ctx receiver.path r
  unfolding new_instance_call_context new_context
  new_instance_call_context-Extends s callsite receiver receiver_ctx v h =
      let (r, done, extends) =
        new_context-Extends dec I s receiver.cid receiver_ctx receiver.path v h in
      (r, ap (Option.map (λ t. (t.0, some t.1))) done, extends)
