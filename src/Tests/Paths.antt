-- ===== src/Tests/Paths.antt =====
-- The theorems on paths at concrete inputs: the first field of what parameter 1 of function 3
-- points to, as `(*_1).0` in Rust.
use rupta_fork.Base.{ℕ, ◌+◌, ◌≡◌, ◌↔◌, refl, List, [], ◌∷◌, ◌++◌, true, some, arith, ℕ_discrete}
use rupta_fork.Strategy.{CsPath}
use rupta_fork.MirPath.{
  PathSelector, PathEnum, deref, field, cast, parameter, qualified_path, PathEnum-discrete,
}
use rupta_fork.MirPath.Valid.{root, projection_of}
use rupta_fork.MirPath.Project.{
  append_projection, add_offset, truncate_projection_elems, remove_cast, is_field_of,
}
use rupta_fork.MirPath.Append.{append_projection-append}
use rupta_fork.MirPath.Truncate.{truncate_projection_elems-append, remove_cast-append}
use rupta_fork.MirPath.Offset.{add_offset-add}
use rupta_fork.MirPath.Field.{is_field_of_iff}
use rupta_fork.MirPath.Contexts
use rupta_fork.MirPath.Contexts.{get_containing_func-append}

abbrev param : PathEnum ℕ ℕ
param = parameter 3 1

abbrev target : PathEnum ℕ ℕ
target = qualified_path param (deref ∷ [])

abbrev first_field : PathEnum ℕ ℕ
first_field = qualified_path param (deref ∷ field 0 ∷ [])

abbrev as_type : PathEnum ℕ ℕ
as_type = qualified_path param (deref ∷ cast 6 ∷ [])

append_projection-append_example :
    append_projection target (field 0 ∷ []) ≡ append_projection param (deref ∷ field 0 ∷ [])
unfolding append_projection
append_projection-append_example =
    append_projection-append param target (deref ∷ []) (field 0 ∷ []) tt refl

truncate_projection_elems-append_example : truncate_projection_elems first_field 1 ≡ some target
unfolding append_projection
truncate_projection_elems-append_example =
    truncate_projection_elems-append target first_field (field 0 ∷ []) (refl, omega arith, tt) refl

remove_cast-append_example : remove_cast as_type ≡ some target
unfolding append_projection
remove_cast-append_example = remove_cast-append target as_type 6 (refl, omega arith, tt) refl

add_offset-add_example : add_offset (PathEnum.offset_path target 8) 16 ≡ add_offset target (8 + 16)
unfolding add_offset
add_offset-add_example =
    add_offset-add target (PathEnum.offset_path target 8) 8 16 (refl, omega arith, tt) refl
      (omega arith) refl

is_field_of_iff_example :
    (is_field_of (PathEnum-discrete ℕ_discrete ℕ_discrete) first_field target ≡ true) ↔ (
      (e : PathSelector) × (es : List PathSelector) × (append_projection target (e ∷ es)
        ≡ some first_field))
is_field_of_iff_example =
    is_field_of_iff (PathEnum-discrete ℕ_discrete ℕ_discrete) first_field target
      (refl, omega arith, tt)

get_containing_func-append_example :
    (q : CsPath (PathEnum ℕ ℕ)) × (Contexts.append_projection
        (record { cid = 2; path = target })
        (field 0 ∷ [])
      ≡ some q)
    × (q.cid ≡ 2)
    × (root q.path ≡ root target)
    × (projection_of q.path ≡ projection_of target ++ field 0 ∷ [])
    × (Contexts.get_containing_func q
        ≡ Contexts.get_containing_func (record { cid = 2; path = target }))
get_containing_func-append_example =
    get_containing_func-append (record { cid = 2; path = target }) (field 0 ∷ [])
      (refl, omega arith, tt)
