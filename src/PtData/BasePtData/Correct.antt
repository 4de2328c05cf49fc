-- ===== src/PtData/BasePtData/Correct.antt =====
-- The methods of `BasePTData` against the sets of the keys, and the reverse map they maintain.
use rupta_fork.Base.{
  ℕ, ◌≡◌, ◌^◌, ◌<◌, ◌==◌, refl, sym, ap, subst, ◌∙◌, List, Bool, true, false, not, ◌&&◌, ◌||◌,
  Option, none, some, ℕ_discrete, arith, ◌↔◌,
}
use mathlib.Core.Option
use rupta_fork.Base.HashMap
use rupta_fork.Base.HashSet
use rupta_fork.Base.HashSet.{same}
use rupta_fork.PtsSet.{PointsToSet}
use rupta_fork.CallSite.Assoc.{contains-add_to, add_to}
use rupta_fork.PtData.DiffPtData.View.{entry-insert_self, entry-insert_ne, insert-stored}
use rupta_fork.PtData.BasePtData.{
  BasePtData, new, entry, add_rev_loop, add_rev_pts, add_pts, union_pts_to, union_pts,
}
use rupta_fork.PtData.BasePtData.Mirror.{in_rev, in_rev-add_rev_loop}

module _ (P : PointsToSet) {K : Type 0} (dec : Discrete K) where
  open P use {Set}

  abbrev pub in_pts : BasePtData K Set → K → ℕ → Bool
  in_pts d k x = P.contains (entry P dec d.pts_map k) x

  -- The stored sets are valid, and the reverse map lists a key at an element exactly when the set
  -- of the key has it.
  pub record IsMirrored (d : BasePtData K Set) : Type 0 where
    pub stored : (k : K) → P.IsValid (entry P dec d.pts_map k)
    pub mirrored : (x : ℕ) (k : K) → in_rev dec d.rev_pts_map x k ≡ in_pts d k x

  pub new-IsMirrored : IsMirrored new
  unfolding new HashMap.get HashSet.contains
  new-IsMirrored = record { stored = λ k. P.new-IsValid; mirrored = λ x k. sym (P.contains-new x) }

  -- The data with the set of one key replaced.
  abbrev pub put : BasePtData K Set → K → Set → List (ℕ × List K) → BasePtData K Set
  put d key s rev = record { pts_map = HashMap.insert dec d.pts_map key s; rev_pts_map = rev }

  pub in_pts-put :
      (d : BasePtData K Set) (key : K) (s : Set) (rev : List (ℕ × List K)) (f : ℕ → Bool → Bool)
      → ((x : ℕ) → P.contains s x ≡ f x (in_pts d key x))
      → (k : K) (x : ℕ)
      → in_pts (put d key s rev) k x
        ≡ elim (dec key k) [ yes _ ↦ f x (in_pts d k x) | no _ ↦ in_pts d k x ]
  in_pts-put d key s rev f h k x =
      elim (dec key k)
        as (λ q.
          in_pts (put d key s rev) k x
          ≡ (elim q [ yes _ ↦ f x (in_pts d k x) | no _ ↦ in_pts d k x ])) [
            | yes e ↦
                subst (λ j. in_pts (put d key s rev) j x ≡ f x (in_pts d j x)) e
                  (ap (λ t. P.contains t x) (entry-insert_self P dec d.pts_map key s) ∙ h x)
            | no ne ↦ ap (λ t. P.contains t x) (entry-insert_ne P dec d.pts_map key k s ne)
          ]

  -- One change of the set of a key, here and in the reverse map.
  pub put-IsMirrored :
      (d : BasePtData K Set) (key : K) (s : Set) (rev : List (ℕ × List K)) (f : ℕ → Bool → Bool)
      → IsMirrored d
      → P.IsValid s
      → ((x : ℕ) → P.contains s x ≡ f x (in_pts d key x))
      → ((x : ℕ) (k : K)
          → in_rev dec rev x k ≡ elim (dec key k) [
            | yes _ ↦ f x (in_rev dec d.rev_pts_map x k)
            | no _ ↦ in_rev dec d.rev_pts_map x k
          ])
      → IsMirrored (put d key s rev)
  put-IsMirrored d key s rev f m v holds lists = record {
    stored = insert-stored P dec d.pts_map key s v m.stored;
    mirrored = λ x k.
        lists x k
        ∙ ap (λ b. elim (dec key k) [ yes _ ↦ f x b | no _ ↦ b ]) (m.mirrored x k)
        ∙ sym (in_pts-put d key s rev f holds k x);
  }

  -- What `add_pts` and the unions are to do: `src x` is what is added to `dst`.
  pub record Joins (d : BasePtData K Set) (dst : K) (src : ℕ → Bool) (r : BasePtData K Set × Bool)
      : Type 0 where
    pub holds : (k : K) (x : ℕ) → in_pts r.0 k x ≡ (same dec dst k && src x || in_pts d k x)
    pub flag : (r.1 ≡ false) ↔ ((x : ℕ) → src x ≡ true → in_pts d dst x ≡ true)
    pub mirrored : IsMirrored r.0

  pub union_pts_to-Joins :
      (d : BasePtData K Set) (dst : K) (src : Set)
      → IsMirrored d
      → P.IsValid src
      → Joins d dst (P.contains src) (union_pts_to P dec d dst src)
  unfolding union_pts_to add_rev_pts
  union_pts_to-Joins d dst src m v =
      let dst_ds = entry P dec d.pts_map dst in
      let rev = add_rev_loop dec (P.to_list src) d.rev_pts_map dst in
      let changed = P.union_changed dst_ds src (m.stored dst) v in
      record {
        holds = λ k x. ground (
          arith,
          in_pts-put d dst (P.union dst_ds src).0 rev (λ y b. b || P.contains src y)
              (P.contains-union dst_ds src) k x,
        );
        flag = (
          (λ down x h. ground (arith, changed.0 down x, P.contains-union dst_ds src x)),
          (λ all. changed.1 (λ x. ground (arith, all x, P.contains-union dst_ds src x))),
        );
        mirrored =
            put-IsMirrored d dst (P.union dst_ds src).0 rev (λ y b. b || P.contains src y) m
              (P.union-IsValid dst_ds src (m.stored dst) v) (P.contains-union dst_ds src)
              (λ x k. ground (
                arith,
                in_rev-add_rev_loop dec (P.to_list src) d.rev_pts_map dst x k,
                P.has-to_list src x v,
              ));
      }

  found_case :
      (d : BasePtData K Set) (dst : K) (o : Option Set)
      → IsMirrored d
      → P.IsValid (Option.get_or o P.new)
      → Joins d dst
          (P.contains (Option.get_or o P.new))
          (elim o [ none ↦ (d, false) | some src_ds ↦ union_pts_to P dec d dst src_ds ])
  found_case d dst none m v = record {
    holds = λ k x. ground (arith, P.contains-new x);
    flag = ((λ _ x h. ground (arith, P.contains-new x)), (λ _. refl));
    mirrored = m;
  }
  found_case d dst (some src_ds) m v = union_pts_to-Joins d dst src_ds m v

  -- When all stored sets are valid and the reverse map lists exactly the keys whose set has an
  -- element, `union_pts` adds the set of the source to that of the destination and changes no
  -- other, its flag is down exactly when the destination had all of it, and the reverse map and
  -- the validity stay right.
  pub union_pts-Joins :
      (d : BasePtData K Set) (dst src : K)
      → IsMirrored d
      → Joins d dst (in_pts d src) (union_pts P dec d dst src)
  unfolding union_pts
  union_pts-Joins d dst src m = found_case d dst (HashMap.get dec d.pts_map src) m (m.stored src)

  -- `add_pts` adds one element.
  pub add_pts-IsMirrored :
      (d : BasePtData K Set) (var : K) (elem : ℕ)
      → IsMirrored d
      → elem < 2 ^ 64
      → IsMirrored (add_pts P dec d var elem).0
        × ((add_pts P dec d var elem).1 ≡ not (in_pts d var elem))
  unfolding add_pts
  add_pts-IsMirrored d var elem m h =
      let pts = entry P dec d.pts_map var in
      (
        put-IsMirrored d var (P.insert pts elem).0 (add_to ℕ_discrete dec d.rev_pts_map elem var)
            (λ y b. y == elem || b) m (P.insert-IsValid pts elem h (m.stored var))
            (P.contains-insert pts elem)
            (λ x k. ground (arith, contains-add_to ℕ_discrete dec d.rev_pts_map elem x var k)),
        P.insert_changed pts elem,
      )
