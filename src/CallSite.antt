-- ===== src/CallSite.antt =====
-- src/mir/call_site.rs and the identifiers of src/mir/function.rs: call sites, with and without a
-- context, and the calls that wait for the pointees of a node (`AssocCallGroup`). `FuncId`,
-- `ContextId` and the nodes are indices; a `Location` of `rustc_middle` and a path are parameters.
pub mod Assoc
use rupta_fork.Base.{ℕ, List}

pub record CsFuncId : Type 0 where
  pub cid : ℕ
  pub func_id : ℕ

-- `From<CSFuncId> for FuncId`
unfoldable pub to_func_id : CsFuncId → ℕ
to_func_id f = f.func_id

pub data CallType : Type 0 where
  static_dispatch dynamic_dispatch dynamic_fn_trait fn_ptr : CallType

-- `BaseCallSiteS<F>`: where a call stands.
pub record BaseCallSite (F Location : Type 0) : Type 0 where
  pub func : F
  pub location : Location

-- `CallSiteS<F, P>`
pub record CallSite (F Location P : Type 0) : Type 0 where
  pub func : F
  pub location : Location
  pub args : List P
  pub destination : P

-- `From<&Rc<CallSiteS<F, P>>> for BaseCallSite`, at a context-sensitive call site.
unfoldable pub to_base :
    {Location P : Type 0} → CallSite CsFuncId Location P → BaseCallSite ℕ Location
unfolding to_func_id
to_base callsite = record { func = to_func_id callsite.func; location = callsite.location }

-- `From<CSBaseCallSite> for BaseCallSite`
unfoldable pub forget_context :
    {Location : Type 0} → BaseCallSite CsFuncId Location → BaseCallSite ℕ Location
unfolding to_func_id
forget_context callsite = record { func = to_func_id callsite.func; location = callsite.location }

-- `From<&Rc<CSCallSite>> for CSBaseCallSite`
unfoldable pub to_cs_base :
    {Location P : Type 0} → CallSite CsFuncId Location P → BaseCallSite CsFuncId Location
to_cs_base callsite = record { func = callsite.func; location = callsite.location }
