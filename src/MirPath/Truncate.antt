-- ===== src/MirPath/Truncate.antt =====
-- `truncate_projection_elems` and `remove_cast` undo what was appended.
use rupta_fork.Base.{
  ℕ, ◌-◌, ◌≡◌, refl, sym, ap, subst, ◌∙◌, List, [], ◌∷◌, ◌++◌, false, some, length, take, arith,
  length-append, take_of_length-le,
}
use mathlib.Core.List.{append-nil}
use rupta_fork.MirPath.{
  PathSelector, ProjectionElems, PathEnum, cast, local_variable, qualified_path,
}
use rupta_fork.MirPath.Create.{is_qualified, new_qualified}
use rupta_fork.MirPath.Project.{
  last_elem, append_projection, truncate_projection_elems, remove_cast,
}
use rupta_fork.MirPath.Valid.{
  IsPath, depth, root, projection_of, root-IsPath, append_projection-root,
}
use rupta_fork.MirPath.Append.{append_projection-Appends, append_projection-inv, path_ext}

take-append : {A : Type 0} (xs ys : List A) → take (length xs) (xs ++ ys) ≡ xs
take-append [] ys = refl
take-append (x ∷ xs) ys = ap (◌∷◌ x) (take-append xs ys)

last_elem-append : (xs : ProjectionElems) (e : PathSelector) → last_elem (xs ++ e ∷ []) ≡ some e
unfolding last_elem
last_elem-append [] e = refl
last_elem-append (x ∷ []) e = refl
last_elem-append (x ∷ y ∷ xs) e = last_elem-append (y ∷ xs) e

module _ {DefId Location : Type 0} where
  -- Truncation of a qualified path at the length of a first part of its projection.
  truncate_qualified :
      (base : PathEnum DefId Location) (xs : ProjectionElems) (e : PathSelector)
      (es : ProjectionElems)
      → is_qualified base ≡ false
      → truncate_projection_elems (qualified_path base (xs ++ e ∷ es)) (length xs)
        ≡ append_projection base xs
  unfolding truncate_projection_elems append_projection new_qualified
  truncate_qualified base [] e es h = ground arith
  truncate_qualified base (x ∷ xs) e es h = ground (
    arith,
    length-append (x ∷ xs) (e ∷ es),
    take-append (x ∷ xs) (e ∷ es),
    append_projection-root base x xs,
  )

  depth-length : (p : PathEnum DefId Location) → depth p ≡ length (projection_of p)
  depth-length (qualified_path base projection) = refl
  depth-length (local_variable f i) = refl
  depth-length _ = refl

  own_root :
      (b : PathEnum DefId Location) → is_qualified b ≡ false → (root b ≡ b) × (projection_of b ≡ [])
  own_root (qualified_path base projection) h = absurd (cc)
  own_root (local_variable f i) h = (refl, refl)
  own_root _ h = (refl, refl)

  -- A path is its root with its projection appended.
  pub append_projection-root_lem :
      (p : PathEnum DefId Location)
      → IsPath p
      → append_projection (root p) (projection_of p) ≡ some p
  append_projection-root_lem p v =
      let (plain, base_path) = root-IsPath p v in
      let (r, h, a) = append_projection-Appends (root p) (projection_of p) base_path in
      let (own, bare) = own_root (root p) plain in
      h
      ∙ ap some (
          path_ext r p a.path v (a.same_root ∙ own)
            (a.longer ∙ ap (λ xs. xs ++ projection_of p) bare))

  -- What an append of at least one element gives.
  appended :
      (p q : PathEnum DefId Location) (e : PathSelector) (es : ProjectionElems)
      → IsPath p
      → append_projection p (e ∷ es) ≡ some q
      → q ≡ qualified_path (root p) (projection_of p ++ e ∷ es)
  unfolding new_qualified
  appended p q e es v h =
      let (plain, _) = root-IsPath p v in let made = append_projection-root p e es in ground arith

  whole : (p : PathEnum DefId Location) → IsPath p → truncate_projection_elems p (depth p) ≡ some p
  unfolding truncate_projection_elems new_qualified
  whole (qualified_path base projection) v =
      ground (arith, take_of_length-le (length projection) projection)
  whole (local_variable f i) v = refl
  whole _ v = refl

  -- To truncate a well-formed path that was extended by any projection back to its own number
  -- of projection elements gives the path it was.
  pub truncate_projection_elems-append :
      (p q : PathEnum DefId Location) (elems : ProjectionElems)
      → IsPath p
      → append_projection p elems ≡ some q
      → truncate_projection_elems q (depth p) ≡ some p
  truncate_projection_elems-append p q [] v h =
      let (r, made, a) = append_projection-Appends p [] v in
      let same : q ≡ p =
        path_ext q p (append_projection-inv p q [] v h).path v
          (append_projection-inv p q [] v h).same_root
          ((append_projection-inv p q [] v h).longer ∙ append-nil (projection_of p)) in
      subst (λ t. truncate_projection_elems t (depth p) ≡ some p) (sym same) (whole p v)
  truncate_projection_elems-append p q (e ∷ es) v h =
      let (plain, _) = root-IsPath p v in
      ap (λ t. truncate_projection_elems t (depth p)) (appended p q e es v h)
      ∙ ap (truncate_projection_elems (qualified_path (root p) (projection_of p ++ e ∷ es)))
          (depth-length p)
      ∙ truncate_qualified (root p) (projection_of p) e es plain
      ∙ append_projection-root_lem p v

  remove_cast-last :
      (base : PathEnum DefId Location) (xs : ProjectionElems) (t : ℕ)
      → remove_cast (qualified_path base (xs ++ cast t ∷ []))
        ≡ truncate_projection_elems (qualified_path base (xs ++ cast t ∷ [])) (length xs)
  unfolding remove_cast
  remove_cast-last base xs t =
      let shorter : length (xs ++ cast t ∷ []) - 1 ≡ length xs =
        omega (arith, length-append xs (cast t ∷ [])) in
      rw (last_elem-append xs (cast t), remove_cast)
        (ap (truncate_projection_elems (qualified_path base (xs ++ cast t ∷ []))) shorter)

  -- `remove_cast` of a well-formed path that a cast was appended to gives the path it was.
  pub remove_cast-append :
      (p q : PathEnum DefId Location) (t : ℕ)
      → IsPath p
      → append_projection p (cast t ∷ []) ≡ some q
      → remove_cast q ≡ some p
  remove_cast-append p q t v h =
      let (plain, _) = root-IsPath p v in
      ap remove_cast (appended p q (cast t) [] v h)
      ∙ remove_cast-last (root p) (projection_of p) t
      ∙ truncate_qualified (root p) (projection_of p) (cast t) [] plain
      ∙ append_projection-root_lem p v
