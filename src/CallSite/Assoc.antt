-- ===== src/CallSite/Assoc.antt =====
-- `AssocCallGroup`: the calls that a node's pointees resolve. Each map takes a node to a set.
use rupta_fork.Base.{◌≡◌, List, [], ◌||◌, ◌&&◌, arith}
use rupta_fork.Base.HashMap
use rupta_fork.Base.HashSet

pub record AssocCallGroup (I Site Func : Type 0) : Type 0 where
  pub static_dispatch_instance_calls : List (I × List (Site × Func))
  pub dynamic_dispatch_calls : List (I × List Site)
  pub dynamic_fntrait_calls : List (I × List Site)
  pub fnptr_calls : List (I × List Site)

unfoldable pub new : {I Site Func : Type 0} → AssocCallGroup I Site Func
new = record {
  static_dispatch_instance_calls = [];
  dynamic_dispatch_calls = [];
  dynamic_fntrait_calls = [];
  fnptr_calls = [];
}

-- `map.entry(key).or_default().insert(value)`
module _ {I A : Type 0} (dec : Discrete I) (dec_value : Discrete A) where
  unfoldable pub add_to : List (I × List A) → I → A → List (I × List A)
  add_to m key value =
      HashMap.insert dec m key
        (HashSet.insert dec_value (HashMap.get_or_default dec m key []) value)

  -- To add a value to the set of a key makes it a member of that set, and changes no other
  -- membership of that set or of another key's.
  pub contains-add_to :
      (m : List (I × List A)) (key k : I) (value a : A)
      → HashSet.contains dec_value (HashMap.get_or_default dec (add_to m key value) k []) a ≡ (
          HashSet.same dec key k && HashSet.same dec_value value a
          || HashSet.contains dec_value (HashMap.get_or_default dec m k []) a)
  unfolding add_to
  contains-add_to m key k value a = ground (
    arith,
    HashMap.get-insert dec m key k
        (HashSet.insert dec_value (HashMap.get_or_default dec m key []) value),
    HashSet.contains-insert dec_value (HashMap.get_or_default dec m key []) value a,
  )

module _ {I Site Func : Type 0} (dec : Discrete I) (dec_site : Discrete Site)
    (dec_pair : Discrete (Site × Func)) where
  unfoldable pub add_static_dispatch_instance_call :
      AssocCallGroup I Site Func → I → Site → Func → AssocCallGroup I Site Func
  unfolding add_to
  add_static_dispatch_instance_call g self_ref callsite callee = record g {
    static_dispatch_instance_calls =
        add_to dec dec_pair g.static_dispatch_instance_calls self_ref (callsite, callee);
  }

  unfoldable pub add_dynamic_dispatch_call :
      AssocCallGroup I Site Func → I → Site → AssocCallGroup I Site Func
  unfolding add_to
  add_dynamic_dispatch_call g dyn_var callsite = record g {
    dynamic_dispatch_calls = add_to dec dec_site g.dynamic_dispatch_calls dyn_var callsite;
  }

  unfoldable pub add_dynamic_fntrait_call :
      AssocCallGroup I Site Func → I → Site → AssocCallGroup I Site Func
  unfolding add_to
  add_dynamic_fntrait_call g dyn_fn_obj callsite = record g {
    dynamic_fntrait_calls = add_to dec dec_site g.dynamic_fntrait_calls dyn_fn_obj callsite;
  }

  unfoldable pub add_fnptr_call : AssocCallGroup I Site Func → I → Site → AssocCallGroup I Site Func
  unfolding add_to
  add_fnptr_call g fn_ptr callsite = record g {
    fnptr_calls = add_to dec dec_site g.fnptr_calls fn_ptr callsite;
  }
