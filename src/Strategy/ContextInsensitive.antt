-- ===== src/Strategy/ContextInsensitive.antt =====
-- `ContextInsensitive` of src/pta/strategies/context_strategy.rs: one context, of index 0.
use rupta_fork.Base.{ℕ, Option, some}
use rupta_fork.Context
use rupta_fork.Context.{Context}
use rupta_fork.CallSite.{CsFuncId, BaseCallSite, CallSite}
use rupta_fork.Strategy.{CsPath}

unfoldable pub empty_context : {Location : Type 0} → Context (BaseCallSite ℕ Location)
empty_context = Context.new_empty

unfoldable pub get_empty_context_id : ℕ
get_empty_context_id = 0

unfoldable pub get_context_id : {Location : Type 0} → Context (BaseCallSite ℕ Location) → ℕ
get_context_id context = 0

unfoldable pub get_context_by_id : {Location : Type 0} → ℕ → Context (BaseCallSite ℕ Location)
unfolding empty_context
get_context_by_id context_id = empty_context

unfoldable pub new_instance_call_context :
    {Location P Object : Type 0} → CallSite CsFuncId Location P → Option (CsPath Object) → Option ℕ
new_instance_call_context callsite receiver = some 0

unfoldable pub new_static_call_context : {Location P : Type 0} → CallSite CsFuncId Location P → ℕ
new_static_call_context callsite = 0
