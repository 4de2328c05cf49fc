-- ===== src/Strategy/SimpleHybrid.antt =====
-- `SimpleHybridContextSensitive` of src/pta/strategies/context_strategy.rs: instance calls take
-- the receiver into the context, static calls the call site.
use rupta_fork.Base.{ℕ, Option, none, some}
use mathlib.Core.Option
use rupta_fork.Context.{Context, IndexVec}
use rupta_fork.CallSite.{CsFuncId, BaseCallSite, CallSite, to_base}
use rupta_fork.Strategy
use rupta_fork.Strategy.{CsPath, KLimited, HybridCtxElem, call_site, object}

module _ {Location Object : Type 0}
    (dec : Discrete (Context (HybridCtxElem (BaseCallSite ℕ Location) Object)))
    (I : IndexVec (Context (HybridCtxElem (BaseCallSite ℕ Location) Object))) where
  open I use {Vec}

  abbrev pub State : Type 0
  State = KLimited (HybridCtxElem (BaseCallSite ℕ Location) Object) Vec

  -- `SimpleHybridContextSensitive::new_instance_call_context`
  unfoldable pub new_context : State → CsPath Object → Option (State × ℕ)
  new_context s receiver = Strategy.new_context dec I s receiver.cid (object receiver.path)

  -- `ContextStrategy::new_instance_call_context`
  unfoldable pub new_instance_call_context :
      {P : Type 0}
      → State
      → CallSite CsFuncId Location P
      → Option (CsPath Object)
      → Option (State × Option ℕ)
  unfolding new_context
  new_instance_call_context s callsite none = some (s, none)
  new_instance_call_context s callsite (some cs_path) =
      Option.map (λ r. (r.0, some r.1)) (new_context s cs_path)

  unfoldable pub new_static_call_context :
      {P : Type 0} → State → CallSite CsFuncId Location P → Option (State × ℕ)
  new_static_call_context s callsite =
      Strategy.new_context dec I s callsite.func.cid (call_site (to_base callsite))
