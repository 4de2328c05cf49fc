-- ===== src/MirPath/Valid.antt =====
-- The invariant of the paths, which the assertions of src/mir/path.rs protect.
use rupta_fork.Base.{ℕ, ◌<◌, ◌≡◌, ◌⊎◌, inl, inr, refl, [], ◌∷◌, ◌++◌, true, false, length}
use rupta_fork.MirPath.{
  PathSelector, ProjectionElems, PathEnum, local_variable, qualified_path, offset_path,
}
use rupta_fork.MirPath.Create.{is_qualified, new_qualified}
use rupta_fork.MirPath.Project.{is_one_deref, append_projection}

module _ {DefId Location : Type 0} where
  -- What an offset is taken from: nothing with an offset, and of the projections only a `deref`.
  abbrev pub IsOffsetBase : PathEnum DefId Location → Type 0
  IsOffsetBase (qualified_path base projection) = is_one_deref projection ≡ true
  IsOffsetBase (offset_path base offset) = ⊥
  IsOffsetBase _ = Unit

  -- No projection is empty or stands on a projection, no offset is 0 or stands on an offset.
  abbrev pub IsPath : PathEnum DefId Location → Type 0
  IsPath (qualified_path base projection) =
      (is_qualified base ≡ false) × (0 < length projection) × IsPath base
  IsPath (offset_path base offset) = (0 < offset) × IsOffsetBase base × IsPath base
  IsPath _ = Unit

  -- The number of projection elements of a path, and the path below them.
  abbrev pub depth : PathEnum DefId Location → ℕ
  depth (qualified_path base projection) = length projection
  depth _ = 0

  abbrev pub root : PathEnum DefId Location → PathEnum DefId Location
  root (qualified_path base projection) = base
  root p = p

  abbrev pub projection_of : PathEnum DefId Location → ProjectionElems
  projection_of (qualified_path base projection) = projection
  projection_of p = []

  -- A path is qualified, or is its own root and has no projection.
  pub qualified-cases :
      (p : PathEnum DefId Location)
      → ((base : PathEnum DefId Location) × (projection : ProjectionElems) × (p
            ≡ qualified_path base projection))
        ⊎ (is_qualified p ≡ false) × (root p ≡ p) × (projection_of p ≡ []) × (depth p ≡ 0)
  qualified-cases (qualified_path base projection) = inl (base, projection, refl)
  qualified-cases (local_variable f i) = inr (refl, refl, refl, refl)
  qualified-cases _ = inr (refl, refl, refl, refl)

  pub root-IsPath :
      (p : PathEnum DefId Location) → IsPath p → (is_qualified (root p) ≡ false) × IsPath (root p)
  root-IsPath (qualified_path base projection) v = (v.0, v.2)
  root-IsPath (local_variable f i) v = (refl, v)
  root-IsPath (offset_path base offset) v = (refl, v)
  root-IsPath _ v = (refl, v)

  -- To append to a path is to qualify its root by the longer projection.
  pub append_projection-root :
      (p : PathEnum DefId Location) (e : PathSelector) (es : ProjectionElems)
      → append_projection p (e ∷ es) ≡ new_qualified (root p) (projection_of p ++ e ∷ es)
  unfolding append_projection
  append_projection-root (qualified_path base projection) e es = refl
  append_projection-root (local_variable f i) e es = refl
  append_projection-root _ e es = refl
