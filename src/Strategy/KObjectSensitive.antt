-- ===== src/Strategy/KObjectSensitive.antt =====
-- `KObjectSensitive` of src/pta/strategies/context_strategy.rs: a context is the receivers of the
-- calls that led to the function.
use rupta_fork.Base.{ℕ, Option, none, some}
use mathlib.Core.Option
use rupta_fork.Context.{Context, IndexVec}
use rupta_fork.CallSite.{CsFuncId, CallSite}
use rupta_fork.Strategy
use rupta_fork.Strategy.{CsPath, KLimited}

module _ {Object : Type 0} (dec : Discrete (Context Object)) (I : IndexVec (Context Object)) where
  open I use {Vec}

  unfoldable pub new_context :
      KLimited Object Vec → CsPath Object → Option (KLimited Object Vec × ℕ)
  new_context s receiver = Strategy.new_context dec I s receiver.cid receiver.path

  unfoldable pub new_instance_call_context :
      {Location P : Type 0}
      → KLimited Object Vec
      → CallSite CsFuncId Location P
      → Option (CsPath Object)
      → Option (KLimited Object Vec × Option ℕ)
  unfolding new_context
  new_instance_call_context s callsite none = some (s, none)
  new_instance_call_context s callsite (some cs_path) =
      Option.map (λ r. (r.0, some r.1)) (new_context s cs_path)

  -- The callee shares the context of its caller.
  unfoldable pub new_static_call_context :
      {Location P : Type 0}
      → KLimited Object Vec
      → CallSite CsFuncId Location P
      → KLimited Object Vec × ℕ
  new_static_call_context s callsite = (s, callsite.func.cid)
