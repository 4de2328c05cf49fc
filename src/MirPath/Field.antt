-- ===== src/MirPath/Field.antt =====
-- `is_field_of`: a path is a field of what it extends.
use rupta_fork.Base.{
  ◌<◌, ◌≡◌, ◌↔◌, refl, sym, ap, ◌∙◌, [], ◌∷◌, ◌++◌, true, false, ◌&&◌, some, ltb, length, arith,
  length-append,
}
use rupta_fork.Base.HashSet.{same}
use rupta_fork.MirPath.{PathSelector, ProjectionElems, PathEnum, local_variable, qualified_path}
use rupta_fork.MirPath.Create.{is_qualified, new_qualified}
use rupta_fork.MirPath.Project.{append_projection, zip_equal, is_field_of}
use rupta_fork.MirPath.Valid.{IsPath, root, projection_of, append_projection-root}

zip_split :
    (xs ys : ProjectionElems)
    → zip_equal xs ys ≡ true
    → length ys < length xs
    → (e : PathSelector) × (es : ProjectionElems) × (xs ≡ ys ++ e ∷ es)
unfolding zip_equal
zip_split [] [] h lt = absurd (omega arith)
zip_split [] (y ∷ ys) h lt = absurd (omega arith)
zip_split (x ∷ xs) [] h lt = (x, xs, refl)
zip_split (x ∷ xs) (y ∷ ys) h lt =
    let (first, rest) : (x ≡ y) × (zip_equal xs ys ≡ true) = ground arith in
    let (e, es, q) = zip_split xs ys rest (omega arith) in
    (e, es, ap (λ z. z ∷ xs) first ∙ ap (◌∷◌ y) q)

zip_equal-append : (ys zs : ProjectionElems) → zip_equal (ys ++ zs) ys ≡ true
unfolding zip_equal
zip_equal-append [] [] = refl
zip_equal-append [] (z ∷ zs) = refl
zip_equal-append (y ∷ ys) zs = ground (arith, zip_equal-append ys zs)

module _ {DefId Location : Type 0} (dec : Discrete (PathEnum DefId Location)) where
  qualified_field :
      (base : PathEnum DefId Location) (xs : ProjectionElems) (p : PathEnum DefId Location)
      → 0 < length xs
      → is_field_of dec (qualified_path base xs) p ≡ (
          same dec base (root p)
          && ltb (length (projection_of p)) (length xs)
          && zip_equal xs (projection_of p))
  unfolding is_field_of zip_equal
  qualified_field base xs (qualified_path b ys) h = ground arith
  qualified_field base [] (local_variable f i) h = absurd (omega arith)
  qualified_field base (x ∷ xs) (local_variable f i) h = ground arith
  qualified_field base [] p h = absurd (omega arith)
  qualified_field base (x ∷ xs) p h = ground arith

  new_qualified-inv :
      (base s : PathEnum DefId Location) (xs : ProjectionElems)
      → new_qualified base xs ≡ some s
      → (s ≡ qualified_path base xs) × (is_qualified base ≡ false)
  unfolding new_qualified
  new_qualified-inv base s xs h = ground arith

  -- Only a projection is a field, and nothing but a projection comes of an append.
  plain_field :
      (s p : PathEnum DefId Location)
      → is_qualified s ≡ false
      → (is_field_of dec s p ≡ true)
        ↔ ((e : PathSelector) × (es : ProjectionElems) × (append_projection p (e ∷ es) ≡ some s))
  plain_field s p h = (
    (λ is_field. absurd (never s p h is_field)),
    (λ (e, es, made).
        let (q, _) =
          new_qualified-inv (root p) s (projection_of p ++ e ∷ es)
            (sym (append_projection-root p e es) ∙ made) in
        let odd : is_qualified s ≡ true = ap is_qualified q in absurd (cc)),
  )
    where
      never :
          (s p : PathEnum DefId Location) → is_qualified s ≡ false → is_field_of dec s p ≡ true → ⊥
      never (qualified_path base xs) p h is_field = cc
      never (local_variable f i) p h is_field = unfold is_field_of in cc
      never s p h is_field = unfold is_field_of in cc

  qualified_split :
      (base : PathEnum DefId Location) (xs : ProjectionElems) (p : PathEnum DefId Location)
      → 0 < length xs
      → is_field_of dec (qualified_path base xs) p ≡ true
      → (base ≡ root p)
        × (length (projection_of p) < length xs)
        × (zip_equal xs (projection_of p) ≡ true)
  qualified_split base xs p v h = ground (arith, qualified_field base xs p v)

  extends_field :
      (base : PathEnum DefId Location) (xs : ProjectionElems) (p : PathEnum DefId Location)
      (e : PathSelector) (es : ProjectionElems)
      → 0 < length xs
      → base ≡ root p
      → xs ≡ projection_of p ++ e ∷ es
      → is_field_of dec (qualified_path base xs) p ≡ true
  extends_field base xs p e es v same_base longer =
      let zipped : zip_equal xs (projection_of p) ≡ true =
        ap (λ l. zip_equal l (projection_of p)) longer
        ∙ zip_equal-append (projection_of p) (e ∷ es) in
      let shorter : length (projection_of p) < length xs =
        omega (arith, ap length longer, length-append (projection_of p) (e ∷ es)) in
      ground (arith, qualified_field base xs p v)

  -- A well-formed path is a field of another path exactly when it comes of appending a
  -- projection of at least one element to that path.
  pub is_field_of_iff :
      (s p : PathEnum DefId Location)
      → IsPath s
      → (is_field_of dec s p ≡ true)
        ↔ ((e : PathSelector) × (es : ProjectionElems) × (append_projection p (e ∷ es) ≡ some s))
  is_field_of_iff (qualified_path base xs) p v = (
    (λ h.
        let (same_base, shorter, zipped) = qualified_split base xs p v.1 h in
        let (e, es, q) = zip_split xs (projection_of p) zipped shorter in
        (
          e,
          es,
          append_projection-root p e es
              ∙ ap (λ l. new_qualified (root p) l) (sym q)
              ∙ ap (λ b. new_qualified b xs) (sym same_base)
              ∙ accepted base xs v.0,
        )),
    (λ (e, es, made).
        let (q, plain) =
          new_qualified-inv (root p) (qualified_path base xs) (projection_of p ++ e ∷ es)
            (sym (append_projection-root p e es) ∙ made) in
        extends_field base xs p e es v.1 (ap root q) (ap projection_of q)),
  )
    where
      accepted :
          (base : PathEnum DefId Location) (xs : ProjectionElems)
          → is_qualified base ≡ false
          → new_qualified base xs ≡ some (qualified_path base xs)
      accepted base xs h = unfold new_qualified in ground arith
  is_field_of_iff (local_variable f i) p v = plain_field (local_variable f i) p refl
  is_field_of_iff s p v = plain_field s p refl
