-- ===== src/HybridSet/Loop.antt =====
-- The loops `for elem in elems { changed |= set.op(elem) }`, over any kind of set.
use rupta_fork.Base.{
  ℕ, ◌≡◌, ◌↔◌, refl, List, [], ◌∷◌, Bool, true, false, not, ◌&&◌, ◌||◌, arith, ◌==◌, All, subst,
  ℕ_discrete, has,
}

-- The set after the loop, and `changed`.
unfoldable pub each {ℓ} : {S : Type ℓ} → (S → ℕ → S × Bool) → S → List ℕ → Bool → S × Bool
each op s [] changed = (s, changed)
each op s (elem ∷ elems) changed = let (s', c) = op s elem in each op s' elems (changed || c)

-- A loop of insertions adds the elements of the list; its flag stays down exactly when all of
-- them were there. `Ok` is the set's invariant, `Fits` what an element must satisfy.
module _ {ℓ κ} {S : Type ℓ} (contains : S → ℕ → Bool) (insert : S → ℕ → S × Bool) (Ok : S → Type κ)
    (Fits : ℕ → Type 0)
    (adds : (s : S) (e x : ℕ) → contains (insert s e).0 x ≡ (x == e || contains s x))
    (flags : (s : S) (e : ℕ) → (insert s e).1 ≡ not (contains s e))
    (keeps : (s : S) (e : ℕ) → Fits e → Ok s → Ok (insert s e).0) where
  pub each_insert-Ok :
      (s : S) (es : List ℕ) (c : Bool) → All Fits es → Ok s → Ok (each insert s es c).0
  unfolding each
  each_insert-Ok s [] c f v = v
  each_insert-Ok s (e ∷ es) c f v =
      each_insert-Ok (insert s e).0 es (c || (insert s e).1) f.1 (keeps s e f.0 v)

  pub contains-each_insert :
      (s : S) (es : List ℕ) (c : Bool) (x : ℕ)
      → contains (each insert s es c).0 x ≡ (has es x || contains s x)
  unfolding each
  contains-each_insert s [] c x = refl
  contains-each_insert s (e ∷ es) c x =
      ground (arith, contains-each_insert (insert s e).0 es (c || (insert s e).1) x, adds s e x)

  each_insert_changed :
      (s : S) (es : List ℕ) (c : Bool)
      → ((each insert s es c).1 ≡ false)
        ↔ ((c ≡ false) × ((x : ℕ) → has es x ≡ true → contains s x ≡ true))
  unfolding each
  each_insert_changed s [] c = ((λ e. (e, λ x h. cc)), (λ h. h.0))
  each_insert_changed s (e ∷ es) c =
      let rest = each_insert_changed (insert s e).0 es (c || (insert s e).1) in
      (
        (λ down.
            let (flag, there) = rest.0 down in
            (
              ground arith,
              λ x h. elim (ℕ_discrete e x) [
                | yes q ↦ subst (λ y. contains s y ≡ true) q (ground (arith, flags s e))
                | no ne ↦ ground (arith, there x, adds s e x)
              ],
            )),
        (λ all.
            rest.1
              (ground (arith, all.1 e, flags s e), λ x h. ground (arith, all.1 x, adds s e x))),
      )

  -- The flag says whether the set has changed.
  pub each_insert-Reports :
      (s : S) (es : List ℕ)
      → ((each insert s es false).1 ≡ false)
        ↔ ((x : ℕ) → contains (each insert s es false).0 x ≡ contains s x)
  each_insert-Reports s es =
      let iff = each_insert_changed s es false in
      (
        (λ down x. ground (arith, (iff.0 down).1 x, contains-each_insert s es false x)),
        (λ same. iff.1 (refl, λ x h. ground (arith, same x, contains-each_insert s es false x))),
      )

-- A loop of removals, likewise.
module _ {ℓ κ} {S : Type ℓ} (contains : S → ℕ → Bool) (remove : S → ℕ → S × Bool) (Ok : S → Type κ)
    (drops : (s : S) (e x : ℕ) → contains (remove s e).0 x ≡ (not (x == e) && contains s x))
    (flags : (s : S) (e : ℕ) → Ok s → (remove s e).1 ≡ contains s e)
    (keeps : (s : S) (e : ℕ) → Ok s → Ok (remove s e).0) where
  pub each_remove-Ok : (s : S) (es : List ℕ) (c : Bool) → Ok s → Ok (each remove s es c).0
  unfolding each
  each_remove-Ok s [] c v = v
  each_remove-Ok s (e ∷ es) c v =
      each_remove-Ok (remove s e).0 es (c || (remove s e).1) (keeps s e v)

  pub contains-each_remove :
      (s : S) (es : List ℕ) (c : Bool) (x : ℕ)
      → contains (each remove s es c).0 x ≡ (contains s x && not (has es x))
  unfolding each
  contains-each_remove s [] c x = ground arith
  contains-each_remove s (e ∷ es) c x =
      ground (arith, contains-each_remove (remove s e).0 es (c || (remove s e).1) x, drops s e x)

  each_remove_changed :
      (s : S) (es : List ℕ) (c : Bool)
      → Ok s
      → ((each remove s es c).1 ≡ false)
        ↔ ((c ≡ false) × ((x : ℕ) → has es x ≡ true → contains s x ≡ false))
  unfolding each
  each_remove_changed s [] c v = ((λ e. (e, λ x h. cc)), (λ h. h.0))
  each_remove_changed s (e ∷ es) c v =
      let rest = each_remove_changed (remove s e).0 es (c || (remove s e).1) (keeps s e v) in
      (
        (λ down.
            let (flag, gone) = rest.0 down in
            (
              ground arith,
              λ x h. elim (ℕ_discrete e x) [
                | yes q ↦ subst (λ y. contains s y ≡ false) q (ground (arith, flags s e v))
                | no ne ↦ ground (arith, gone x, drops s e x)
              ],
            )),
        (λ all.
            rest.1
              (ground (arith, all.1 e, flags s e v), λ x h. ground (arith, all.1 x, drops s e x))),
      )

  pub each_remove-Reports :
      (s : S) (es : List ℕ)
      → Ok s
      → ((each remove s es false).1 ≡ false)
        ↔ ((x : ℕ) → contains (each remove s es false).0 x ≡ contains s x)
  each_remove-Reports s es v =
      let iff = each_remove_changed s es false v in
      (
        (λ down x. ground (arith, (iff.0 down).1 x, contains-each_remove s es false x)),
        (λ same. iff.1 (refl, λ x h. ground (arith, same x, contains-each_remove s es false x))),
      )
