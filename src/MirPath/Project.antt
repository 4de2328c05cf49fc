-- ===== src/MirPath/Project.antt =====
-- The methods of `Path` on projections and offsets.
use rupta_fork.Base.{
  ℕ, zero, suc, ◌+◌, ◌-◌, ◌%◌, ◌==◌, [], ◌∷◌, ◌++◌, Bool, true, false, ◌&&◌, Option, none, some,
  if◌then◌else◌, ltb, length, take,
}
use rupta_fork.Base.HashSet.{same}
use rupta_fork.BitVec.{word_mod}
use rupta_fork.MirPath.{
  PathSelector, ProjectionElems, PathEnum, deref, field, union_field, index, downcast, cast,
  local_variable, parameter, return_value, auxiliary, heap_obj, qualified_path, offset_path,
  ptr_metadata_offset, PathSelector-discrete,
}
use rupta_fork.MirPath.Create.{new_qualified, new_offset}

-- `projection.len() == 1 && projection[0] == PathSelector::Deref`
abbrev pub is_one_deref : ProjectionElems → Bool
is_one_deref (deref ∷ []) = true
is_one_deref _ = false

-- `projection.last()`
unfoldable pub last_elem : ProjectionElems → Option PathSelector
last_elem [] = none
last_elem (elem ∷ []) = some elem
last_elem (elem ∷ next ∷ elems) = last_elem (next ∷ elems)

module _ {DefId Location : Type 0} where
  unfoldable pub append_projection_elem :
      PathEnum DefId Location → PathSelector → Option (PathEnum DefId Location)
  unfolding new_qualified
  append_projection_elem (qualified_path base projection) projection_elem =
      new_qualified base (projection ++ projection_elem ∷ [])
  append_projection_elem path projection_elem = new_qualified path (projection_elem ∷ [])

  unfoldable pub append_projection :
      PathEnum DefId Location → ProjectionElems → Option (PathEnum DefId Location)
  unfolding new_qualified
  append_projection path [] = some path
  append_projection (qualified_path base projection) (elem ∷ elems) =
      new_qualified base (projection ++ elem ∷ elems)
  append_projection path (elem ∷ elems) = new_qualified path (elem ∷ elems)

  unfoldable pub new_index : PathEnum DefId Location → Option (PathEnum DefId Location)
  unfolding append_projection_elem
  new_index collection_path = append_projection_elem collection_path index

  unfoldable pub new_field : PathEnum DefId Location → ℕ → Option (PathEnum DefId Location)
  unfolding append_projection_elem
  new_field base field_index = append_projection_elem base (field field_index)

  unfoldable pub new_union_field : PathEnum DefId Location → ℕ → Option (PathEnum DefId Location)
  unfolding append_projection_elem
  new_union_field base field_index = append_projection_elem base (union_field field_index)

  unfoldable pub new_downcast : PathEnum DefId Location → ℕ → Option (PathEnum DefId Location)
  unfolding append_projection_elem
  new_downcast base downcast_variant = append_projection_elem base (downcast downcast_variant)

  -- The sum of two offsets is a `usize`: it wraps where overflow is not checked.
  unfoldable pub add_offset : PathEnum DefId Location → ℕ → Option (PathEnum DefId Location)
  unfolding new_offset
  add_offset path zero = some path
  add_offset (offset_path base old_offset) (suc offset) =
      some (new_offset base ((old_offset + suc offset) % word_mod))
  add_offset (qualified_path base projection) (suc offset) =
      if is_one_deref projection
      then some (new_offset (qualified_path base projection) (suc offset))
      else none
  add_offset path (suc offset) = some (new_offset path (suc offset))

  unfoldable pub dyn_ptr_metadata : PathEnum DefId Location → Option (PathEnum DefId Location)
  unfolding add_offset
  dyn_ptr_metadata dyn_ptr_path = add_offset dyn_ptr_path ptr_metadata_offset

  unfoldable pub truncate_projection_elems :
      PathEnum DefId Location → ℕ → Option (PathEnum DefId Location)
  unfolding new_qualified
  truncate_projection_elems (qualified_path base projection) len =
      if ltb (length projection) len
      then some (qualified_path base projection)
      else if len == 0
      then some base
      else new_qualified base (take len projection)
  truncate_projection_elems path len = some path

  unfoldable pub remove_cast : PathEnum DefId Location → Option (PathEnum DefId Location)
  unfolding last_elem truncate_projection_elems
  remove_cast (qualified_path base projection) = elim (last_elem projection) [
    | none ↦ none
    | some elem ↦ elim elem [
      | cast _ ↦ truncate_projection_elems (qualified_path base projection) (length projection - 1)
      | _ ↦ some (qualified_path base projection)
    ]
  ]
  remove_cast path = some path

  -- `projection[0] == PathSelector::Deref`, which panics on an empty projection.
  unfoldable pub is_deref_path : PathEnum DefId Location → Option Bool
  is_deref_path (qualified_path base []) = none
  is_deref_path (qualified_path base (deref ∷ elems)) = some true
  is_deref_path (qualified_path base (elem ∷ elems)) = some false
  is_deref_path (offset_path base offset) = is_deref_path base
  is_deref_path _ = some false

  unfoldable pub get_containing_func : PathEnum DefId Location → Option ℕ
  get_containing_func (local_variable func_id ordinal) = some func_id
  get_containing_func (parameter func_id ordinal) = some func_id
  get_containing_func (return_value func_id) = some func_id
  get_containing_func (auxiliary func_id ordinal) = some func_id
  get_containing_func (heap_obj func_id location) = some func_id
  get_containing_func (qualified_path base projection) = get_containing_func base
  get_containing_func (offset_path base offset) = get_containing_func base
  get_containing_func _ = none

-- `self_projection.iter().zip(projection.iter()).all(|(a, b)| a == b)`
unfoldable pub zip_equal : ProjectionElems → ProjectionElems → Bool
zip_equal [] projection = true
zip_equal (a ∷ self_projection) [] = true
zip_equal (a ∷ self_projection) (b ∷ projection) =
    same PathSelector-discrete a b && zip_equal self_projection projection

module _ {DefId Location : Type 0} (dec : Discrete (PathEnum DefId Location)) where
  unfoldable pub is_field_of : PathEnum DefId Location → PathEnum DefId Location → Bool
  unfolding zip_equal
  is_field_of (qualified_path self_base self_projection) (qualified_path base projection) =
      if same dec self_base base && ltb (length projection) (length self_projection)
      then zip_equal self_projection projection
      else false
  is_field_of (qualified_path self_base self_projection) path = same dec self_base path
  is_field_of _ path = false
