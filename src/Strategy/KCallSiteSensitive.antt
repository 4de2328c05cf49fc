-- ===== src/Strategy/KCallSiteSensitive.antt =====
-- `KCallSiteSensitive` of src/pta/strategies/context_strategy.rs: a context is the call sites
-- that led to the function.
use rupta_fork.Base.{ℕ, Option, some}
use mathlib.Core.Option
use rupta_fork.Context.{Context, IndexVec}
use rupta_fork.CallSite.{CsFuncId, BaseCallSite, CallSite, to_base}
use rupta_fork.Strategy
use rupta_fork.Strategy.{CsPath, KLimited}

module _ {Location : Type 0} (dec : Discrete (Context (BaseCallSite ℕ Location)))
    (I : IndexVec (Context (BaseCallSite ℕ Location))) where
  open I use {Vec}

  unfoldable pub new_context :
      {P : Type 0}
      → KLimited (BaseCallSite ℕ Location) Vec
      → CallSite CsFuncId Location P
      → Option (KLimited (BaseCallSite ℕ Location) Vec × ℕ)
  new_context s callsite = Strategy.new_context dec I s callsite.func.cid (to_base callsite)

  unfoldable pub new_instance_call_context :
      {P Object : Type 0}
      → KLimited (BaseCallSite ℕ Location) Vec
      → CallSite CsFuncId Location P
      → Option (CsPath Object)
      → Option (KLimited (BaseCallSite ℕ Location) Vec × Option ℕ)
  unfolding new_context
  new_instance_call_context s callsite receiver =
      Option.map (λ r. (r.0, some r.1)) (new_context s callsite)

  unfoldable pub new_static_call_context :
      {P : Type 0}
      → KLimited (BaseCallSite ℕ Location) Vec
      → CallSite CsFuncId Location P
      → Option (KLimited (BaseCallSite ℕ Location) Vec × ℕ)
  unfolding new_context
  new_static_call_context s callsite = new_context s callsite
