-- ===== src/MirPath/Append.antt =====
-- `append_projection`: it does not fail on a path, and it composes.
use rupta_fork.Base.{
  ◌≡◌, refl, sym, ap, subst, ◌∙◌, [], ◌∷◌, ◌++◌, false, some, arith, length-append,
}
use mathlib.Core.List.{append_assoc, append-nil}
use rupta_fork.MirPath.{PathSelector, ProjectionElems, PathEnum, local_variable, qualified_path}
use rupta_fork.MirPath.Create.{is_qualified, new_qualified}
use rupta_fork.MirPath.Project.{append_projection, append_projection_elem, get_containing_func}
use rupta_fork.MirPath.Valid.{IsPath, root, projection_of, root-IsPath, append_projection-root}

module _ {DefId Location : Type 0} where
  -- What it is to append a projection to `p`.
  pub record Appends (p : PathEnum DefId Location) (elems : ProjectionElems)
      (q : PathEnum DefId Location) : Type 0 where
    pub same_root : root q ≡ root p
    pub longer : projection_of q ≡ projection_of p ++ elems
    pub path : IsPath q
    pub same_func : get_containing_func q ≡ get_containing_func p

  func-root : (p : PathEnum DefId Location) → get_containing_func (root p) ≡ get_containing_func p
  unfolding get_containing_func
  func-root (qualified_path base projection) = refl
  func-root (local_variable f i) = refl
  func-root _ = refl

  new_qualified_lem :
      (base : PathEnum DefId Location) (projection : ProjectionElems)
      → is_qualified base ≡ false
      → new_qualified base projection ≡ some (qualified_path base projection)
  unfolding new_qualified
  new_qualified_lem base projection h = rw (h, new_qualified)

  pub append_projection-Appends :
      (p : PathEnum DefId Location) (elems : ProjectionElems)
      → IsPath p
      → (q : PathEnum DefId Location) × (append_projection p elems ≡ some q) × Appends p elems q
  unfolding append_projection
  append_projection-Appends p [] v = (
    p,
    append_none p,
    record {
      same_root = refl;
      longer = sym (append-nil (projection_of p));
      path = v;
      same_func = refl;
    },
  )
    where
      append_none : (p : PathEnum DefId Location) → append_projection p [] ≡ some p
      append_none p = refl
  append_projection-Appends p (e ∷ es) v =
      let base = root-IsPath p v in
      (
        qualified_path (root p) (projection_of p ++ e ∷ es),
        append_projection-root p e es
            ∙ new_qualified_lem (root p) (projection_of p ++ e ∷ es) base.0,
        record {
          same_root = refl;
          longer = refl;
          path = (base.0, omega (arith, length-append (projection_of p) (e ∷ es)), base.1);
          same_func = unfold get_containing_func in func-root p;
        },
      )

  -- A path is given by its root and its projection.
  abbrev rebuild : PathEnum DefId Location → ProjectionElems → PathEnum DefId Location
  rebuild base [] = base
  rebuild base (e ∷ es) = qualified_path base (e ∷ es)

  rebuild_lem : (p : PathEnum DefId Location) → IsPath p → rebuild (root p) (projection_of p) ≡ p
  rebuild_lem (qualified_path base []) v = absurd (omega (arith, v.1))
  rebuild_lem (qualified_path base (e ∷ es)) v = refl
  rebuild_lem (local_variable f i) v = refl
  rebuild_lem _ v = refl

  pub path_ext :
      (p q : PathEnum DefId Location)
      → IsPath p
      → IsPath q
      → root p ≡ root q
      → projection_of p ≡ projection_of q
      → p ≡ q
  path_ext p q v w r e =
      sym (rebuild_lem p v)
      ∙ ap (λ b. rebuild b (projection_of p)) r
      ∙ ap (rebuild (root q)) e
      ∙ rebuild_lem q w

  -- Inversion: what comes of an append is the path it is to give.
  pub append_projection-inv :
      (p q : PathEnum DefId Location) (elems : ProjectionElems)
      → IsPath p
      → append_projection p elems ≡ some q
      → Appends p elems q
  append_projection-inv p q elems v h =
      let (q', h', a) = append_projection-Appends p elems v in subst (Appends p elems) (cc) a

  -- On a well-formed path, to append one projection and then another is to append the two
  -- together, whether either is empty or the path is qualified already.
  pub append_projection-append :
      (p q : PathEnum DefId Location) (xs ys : ProjectionElems)
      → IsPath p
      → append_projection p xs ≡ some q
      → append_projection q ys ≡ append_projection p (xs ++ ys)
  append_projection-append p q xs ys v h =
      let first = append_projection-inv p q xs v h in
      let (r, hr, second) = append_projection-Appends q ys first.path in
      let (t, ht, both) = append_projection-Appends p (xs ++ ys) v in
      let e : r ≡ t =
        path_ext r t second.path both.path (second.same_root ∙ first.same_root ∙ sym both.same_root)
          (second.longer
            ∙ ap (λ zs. zs ++ ys) first.longer
            ∙ append_assoc (projection_of p) xs ys
            ∙ sym both.longer) in
      hr ∙ ap some e ∙ sym ht

  pub append_projection_elem_lem :
      (p : PathEnum DefId Location) (e : PathSelector)
      → append_projection_elem p e ≡ append_projection p (e ∷ [])
  unfolding append_projection_elem append_projection
  append_projection_elem_lem (qualified_path base projection) e = refl
  append_projection_elem_lem (local_variable f i) e = refl
  append_projection_elem_lem _ e = refl
