-- ===== src/MirPath.antt =====
-- src/mir/path.rs: the paths that name memory. A `Path` is a struct with the one field `value`, so
-- a path is its `PathEnum`; `Rc` is not modelled, since paths are never mutated. `DefId` and
-- `Location` of the compiler are parameters. An `Option` is `none` where an `assert!` fails or an
-- index panics. What asks `AnalysisContext` for a compiler type is not modelled.
pub mod Create
pub mod Project
pub mod Valid
pub mod Truncate
pub mod Append
pub mod Offset
pub mod Field
pub mod Deref
pub mod Contexts
use rupta_fork.Base.{ℕ, List, Bool, ℕ_discrete}

abbrev pub ptr_metadata_offset : ℕ
ptr_metadata_offset = 8

pub data PathSelector : Type 0 where
  deref : PathSelector
  field : ℕ → PathSelector
  union_field : ℕ → PathSelector
  index : PathSelector
  subslice : ℕ → ℕ → Bool → PathSelector
  downcast : ℕ → PathSelector
  discriminant : PathSelector
  cast : ℕ → PathSelector

abbrev pub ProjectionElems : Type 0
ProjectionElems = List PathSelector

pub data PathEnum (DefId Location : Type 0) : Type 0 where
  local_variable : ℕ → ℕ → PathEnum DefId Location
  parameter : ℕ → ℕ → PathEnum DefId Location
  return_value : ℕ → PathEnum DefId Location
  auxiliary : ℕ → ℕ → PathEnum DefId Location
  heap_obj : ℕ → Location → PathEnum DefId Location
  constant : PathEnum DefId Location
  static_variable : DefId → PathEnum DefId Location
  promoted_constant : DefId → ℕ → PathEnum DefId Location
  qualified_path : PathEnum DefId Location → ProjectionElems → PathEnum DefId Location
  offset_path : PathEnum DefId Location → ℕ → PathEnum DefId Location
  function : ℕ → PathEnum DefId Location
  promoted_str_ref_array : PathEnum DefId Location
  promoted_argument_v1_array : PathEnum DefId Location
  type : ℕ → PathEnum DefId Location

pub PathSelector-discrete : Discrete PathSelector
PathSelector-discrete = hlevel (ℕ_discrete)

-- The equality that `#[derive(PartialEq)]` gives.
pub PathEnum-discrete :
    {DefId Location : Type 0}
    → Discrete DefId
    → Discrete Location
    → Discrete (PathEnum DefId Location)
PathEnum-discrete d l = hlevel (d, l, ℕ_discrete, PathSelector-discrete)
