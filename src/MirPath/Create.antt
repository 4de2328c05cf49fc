-- ===== src/MirPath/Create.antt =====
-- The constructors of `Path`, and the tests of its kind.
use rupta_fork.Base.{ℕ, ◌==◌, [], ◌∷◌, Bool, true, false, Option, none, some, if◌then◌else◌, leb}
use rupta_fork.MirPath.{
  ProjectionElems, PathEnum, deref, local_variable, parameter, return_value, auxiliary, heap_obj,
  constant, static_variable, promoted_constant, qualified_path, offset_path, function,
  promoted_str_ref_array, promoted_argument_v1_array, type,
}

module _ {DefId Location : Type 0} where
  unfoldable pub new_local : ℕ → ℕ → PathEnum DefId Location
  new_local func_id ordinal = local_variable func_id ordinal

  unfoldable pub new_parameter : ℕ → ℕ → PathEnum DefId Location
  new_parameter func_id ordinal = parameter func_id ordinal

  unfoldable pub new_return_value : ℕ → PathEnum DefId Location
  new_return_value func_id = return_value func_id

  unfoldable pub new_local_parameter_or_result : ℕ → ℕ → ℕ → PathEnum DefId Location
  unfolding new_local new_parameter new_return_value
  new_local_parameter_or_result func_id ordinal argument_count =
      if ordinal == 0
      then new_return_value func_id
      else if leb ordinal argument_count
      then new_parameter func_id ordinal
      else new_local func_id ordinal

  unfoldable pub new_aux : ℕ → ℕ → PathEnum DefId Location
  new_aux func_id ordinal = auxiliary func_id ordinal

  unfoldable pub new_heap_obj : ℕ → Location → PathEnum DefId Location
  new_heap_obj func_id location = heap_obj func_id location

  unfoldable pub new_constant : PathEnum DefId Location
  new_constant = constant

  unfoldable pub new_static_variable : DefId → PathEnum DefId Location
  new_static_variable def_id = static_variable def_id

  unfoldable pub new_promoted : DefId → ℕ → PathEnum DefId Location
  new_promoted def_id ordinal = promoted_constant def_id ordinal

  unfoldable pub new_argumentv1_arr : PathEnum DefId Location
  new_argumentv1_arr = promoted_argument_v1_array

  unfoldable pub new_str_ref_arr : PathEnum DefId Location
  new_str_ref_arr = promoted_str_ref_array

  -- `matches!(value, PathEnum::QualifiedPath { .. })`
  abbrev pub is_qualified : PathEnum DefId Location → Bool
  is_qualified (qualified_path base projection) = true
  is_qualified _ = false

  unfoldable pub new_qualified :
      PathEnum DefId Location → ProjectionElems → Option (PathEnum DefId Location)
  new_qualified base projection =
      if is_qualified base then none else some (qualified_path base projection)

  unfoldable pub new_offset : PathEnum DefId Location → ℕ → PathEnum DefId Location
  new_offset base offset = if offset == 0 then base else offset_path base offset

  unfoldable pub new_function : ℕ → PathEnum DefId Location
  new_function func_id = function func_id

  unfoldable pub new_type : ℕ → PathEnum DefId Location
  new_type type_index = type type_index

  unfoldable pub new_deref : PathEnum DefId Location → Option (PathEnum DefId Location)
  new_deref address_path =
      if is_qualified address_path then none else some (qualified_path address_path (deref ∷ []))

  unfoldable pub is_constant : PathEnum DefId Location → Bool
  is_constant constant = true
  is_constant _ = false

  unfoldable pub is_promoted_constant : PathEnum DefId Location → Bool
  is_promoted_constant (promoted_constant def_id ordinal) = true
  is_promoted_constant _ = false

  unfoldable pub is_static_variable : PathEnum DefId Location → Bool
  is_static_variable (static_variable def_id) = true
  is_static_variable _ = false
