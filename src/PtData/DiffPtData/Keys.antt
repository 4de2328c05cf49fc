-- ===== src/PtData/DiffPtData/Keys.antt =====
-- `union_diff_pts` and `union_pts`, which unite the sets of two keys.
use rupta_fork.Base.{
  ℕ, ◌≡◌, ◌≢◌, ◌↔◌, refl, sym, List, Bool, true, false, not, ◌∙◌, ◌&&◌, ◌||◌, Option, none, some,
  arith, subst, fun_ext,
}
use mathlib.Core.Option
use rupta_fork.Base.HashMap
use rupta_fork.PtsSet.{PointsToSet}
use rupta_fork.PtData.DiffPtData.{DiffPtData, entry, union_found, union_diff_pts, union_pts}
use rupta_fork.Base.HashSet.{same}
use rupta_fork.PtData.DiffPtData.View.{in_diff, in_propa, points_to, IsStored, IsDisjoint}
use rupta_fork.PtData.DiffPtData.Union.{
  points_to-union_pts_to, in_diff-union_pts_to, in_propa-union_pts_to, union_pts_to_changed,
  union_pts_to-IsStored, union_pts_to-IsDisjoint,
}

module _ (P : PointsToSet) {K : Type 0} (dec : Discrete K) where
  open P use {Set}

  -- What the result of a union is to be: `src x` is what it adds to `dst`.
  pub record Unites (d : DiffPtData K Set) (dst : K) (src : ℕ → Bool) (r : DiffPtData K Set × Bool)
      : Type 0 where
    pub holds :
        (k : K) (x : ℕ)
        → points_to P dec r.0 k x ≡ (same dec dst k && src x || points_to P dec d k x)
    pub diff :
        (k : K) (x : ℕ)
        → in_diff P dec r.0 k x
          ≡ (same dec dst k && (src x && not (in_propa P dec d k x)) || in_diff P dec d k x)
    pub propa : (k : K) (x : ℕ) → in_propa P dec r.0 k x ≡ in_propa P dec d k x
    pub flag : (r.1 ≡ false) ↔ ((x : ℕ) → src x ≡ true → points_to P dec d dst x ≡ true)
    pub stored : IsStored P dec r.0
    pub disjoint : IsDisjoint P dec d → IsDisjoint P dec r.0

  -- The set of a key, by what the lookup gives.
  abbrev in_found : Option Set → ℕ → Bool
  in_found none x = false
  in_found (some s) x = P.contains s x

  found-entry :
      (m : List (K × Set)) (k : K) (x : ℕ)
      → in_found (HashMap.get dec m k) x ≡ P.contains (entry P dec m k) x
  found-entry m k x = found_case (HashMap.get dec m k)
    where
      found_case : (o : Option Set) → in_found o x ≡ P.contains (Option.get_or o P.new) x
      found_case none = sym (P.contains-new x)
      found_case (some s) = refl

  found_valid :
      (m : List (K × Set)) (k : K) (s : Set)
      → ((j : K) → P.IsValid (entry P dec m j))
      → HashMap.get dec m k ≡ some s
      → P.IsValid s
  found_valid m k s v e = subst (λ o. P.IsValid (Option.get_or o P.new)) e (v k)

  union_found-Unites :
      (d : DiffPtData K Set) (dst : K) (o : Option Set)
      → IsStored P dec d
      → ((s : Set) → o ≡ some s → P.IsValid s)
      → Unites d dst (in_found o) (union_found P dec d dst o)
  unfolding union_found
  union_found-Unites d dst none v w = record {
    holds = λ k x. ground arith;
    diff = λ k x. ground arith;
    propa = λ k x. refl;
    flag = ((λ e x h. cc), (λ h. refl));
    stored = v;
    disjoint = λ h. h;
  }
  union_found-Unites d dst (some s) v w = record {
    holds = points_to-union_pts_to P dec d v dst s (w s refl);
    diff = in_diff-union_pts_to P dec d v dst s (w s refl);
    propa = in_propa-union_pts_to P dec d v dst s (w s refl);
    flag = union_pts_to_changed P dec d v dst s (w s refl);
    stored = union_pts_to-IsStored P dec d v dst s (w s refl);
    disjoint = union_pts_to-IsDisjoint P dec d v dst s (w s refl);
  }

  -- To unite a key with itself, or with nothing, changes nothing.
  unchanged-Unites :
      (d : DiffPtData K Set) (dst : K) (src : ℕ → Bool)
      → IsStored P dec d
      → ((x : ℕ) → src x ≡ true → points_to P dec d dst x ≡ true)
      → Unites d dst src (d, false)
  unchanged-Unites d dst src v h = record {
    holds = λ k x.
        elim (dec dst k)
          as (λ q.
            points_to P dec d k x
            ≡ (elim q [ yes _ ↦ true | no _ ↦ false ] && src x || points_to P dec d k x)) [
              | yes e ↦
                  subst (λ j. points_to P dec d j x ≡ (src x || points_to P dec d j x)) e
                    (ground (arith, h x))
              | no ne ↦ refl
            ];
    diff = λ k x.
        elim (dec dst k)
          as (λ q. in_diff P dec d k x ≡ (
            elim q [ yes _ ↦ true | no _ ↦ false ] && (src x && not (in_propa P dec d k x))
            || in_diff P dec d k x)) [
              | yes e ↦
                  subst
                    (λ j.
                      in_diff P dec d j x
                      ≡ (src x && not (in_propa P dec d j x) || in_diff P dec d j x))
                    e (ground (arith, h x))
              | no ne ↦ refl
            ];
    propa = λ k x. refl;
    flag = ((λ e. h), (λ e. refl));
    stored = v;
    disjoint = λ k. k;
  }

  -- When all stored sets are valid, `union_diff_pts` adds what the source has still to
  -- propagate to the points-to set of the destination and changes that of no other key, its
  -- flag is down exactly when the destination had all of it, the stored sets stay valid, and if
  -- nothing to be propagated has been propagated before, that stays so.
  pub union_diff_pts-Unites :
      (d : DiffPtData K Set) (dst src : K)
      → IsStored P dec d
      → Unites d dst (in_diff P dec d src) (union_diff_pts P dec d dst src)
  unfolding union_diff_pts
  union_diff_pts-Unites d dst src v =
      elim (dec dst src)
        as (λ q. Unites d dst (in_diff P dec d src) (elim q [
          | yes _ ↦ (d, false)
          | no _ ↦ union_found P dec d dst (HashMap.get dec d.diff_pts_map src)
        ])) [
          | yes e ↦
              unchanged-Unites d dst (in_diff P dec d src) v
                (λ x h. subst (λ j. points_to P dec d j x ≡ true) (sym e) (ground arith))
          | no ne ↦
              subst
                (λ f. Unites d dst f (union_found P dec d dst (HashMap.get dec d.diff_pts_map src)))
                (fun_ext (found-entry d.diff_pts_map src))
                (union_found-Unites d dst (HashMap.get dec d.diff_pts_map src) v
                  (λ s e. found_valid d.diff_pts_map src s v.diff_valid e))
        ]

  -- Two unions into one key are one, of both sources.
  Unites-compose :
      (d : DiffPtData K Set) (dst : K) (s₁ s₂ : ℕ → Bool) (r₁ r₂ : DiffPtData K Set × Bool)
      → Unites d dst s₁ r₁
      → Unites r₁.0 dst s₂ r₂
      → Unites d dst (λ x. s₁ x || s₂ x) (r₂.0, r₁.1 || r₂.1)
  Unites-compose d dst s₁ s₂ r₁ r₂ u w = record {
    holds = λ k x. ground (arith, u.holds k x, w.holds k x);
    diff = λ k x. ground (arith, u.diff k x, w.diff k x, u.propa k x);
    propa = λ k x. w.propa k x ∙ u.propa k x;
    flag = (
      (λ e x h.
          ground (arith, u.flag.0 (ground arith) x, w.flag.0 (ground arith) x, u.holds dst x)),
      (λ h. ground (
        arith,
        u.flag.1 (λ x m. h x (ground arith)),
        w.flag.1 (λ x m. ground (arith, h x (ground arith), u.holds dst x)),
      )),
    );
    stored = w.stored;
    disjoint = λ h. w.disjoint (u.disjoint h);
  }

  -- A union leaves what the other keys have propagated.
  found_keeps :
      (d : DiffPtData K Set) (dst src : K) (o : Option Set)
      → dst ≢ src
      → HashMap.get dec (union_found P dec d dst o).0.propa_pts_map src
        ≡ HashMap.get dec d.propa_pts_map src
  unfolding union_found
  found_keeps d dst src none ne = refl
  found_keeps d dst src (some s) ne =
      HashMap.get-insert_ne dec d.propa_pts_map dst src (entry P dec d.propa_pts_map dst) ne

  union_pts_ne :
      (d : DiffPtData K Set) (dst src : K)
      → IsStored P dec d
      → dst ≢ src
      → let r₁ = union_found P dec d dst (HashMap.get dec d.diff_pts_map src) in
        let r₂ = union_found P dec r₁.0 dst (HashMap.get dec r₁.0.propa_pts_map src) in
        Unites d dst (points_to P dec d src) (r₂.0, r₁.1 || r₂.1)
  union_pts_ne d dst src v ne =
      let r₁ = union_found P dec d dst (HashMap.get dec d.diff_pts_map src) in
      let kept = found_keeps d dst src (HashMap.get dec d.diff_pts_map src) ne in
      let first : Unites d dst (in_diff P dec d src) r₁ =
        subst (λ f. Unites d dst f r₁) (fun_ext (found-entry d.diff_pts_map src))
          (union_found-Unites d dst (HashMap.get dec d.diff_pts_map src) v
            (λ s e. found_valid d.diff_pts_map src s v.diff_valid e)) in
      let second : Unites r₁.0 dst (in_propa P dec d src)
          (union_found P dec r₁.0 dst (HashMap.get dec r₁.0.propa_pts_map src)) =
        subst (λ o. Unites r₁.0 dst (in_propa P dec d src) (union_found P dec r₁.0 dst o))
          (sym kept)
          (subst
            (λ f.
              Unites r₁.0 dst f (union_found P dec r₁.0 dst (HashMap.get dec d.propa_pts_map src)))
            (fun_ext (found-entry d.propa_pts_map src))
            (union_found-Unites r₁.0 dst (HashMap.get dec d.propa_pts_map src) first.stored
              (λ s e. found_valid d.propa_pts_map src s v.propa_valid e))) in
      Unites-compose d dst (in_diff P dec d src) (in_propa P dec d src) r₁
        (union_found P dec r₁.0 dst (HashMap.get dec r₁.0.propa_pts_map src)) first second

  -- When all stored sets are valid, `union_pts` adds the whole points-to set of the source to
  -- that of the destination and changes that of no other key, what it adds is still to be
  -- propagated, what has been propagated stays so and nothing else has, its flag is down
  -- exactly when the destination had all of it, the stored sets stay valid, and if nothing to
  -- be propagated has been propagated before, that stays so.
  pub union_pts-Unites :
      (d : DiffPtData K Set) (dst src : K)
      → IsStored P dec d
      → Unites d dst (points_to P dec d src) (union_pts P dec d dst src)
  unfolding union_pts
  union_pts-Unites d dst src v =
      elim (dec dst src)
        as (λ q. Unites d dst (points_to P dec d src) (elim q [
          | yes _ ↦ (d, false)
          | no _ ↦
              let r₁ = union_found P dec d dst (HashMap.get dec d.diff_pts_map src) in
              let r₂ = union_found P dec r₁.0 dst (HashMap.get dec r₁.0.propa_pts_map src) in
              (r₂.0, r₁.1 || r₂.1)
        ])) [
          | yes e ↦
              unchanged-Unites d dst (points_to P dec d src) v
                (λ x h. subst (λ j. points_to P dec d j x ≡ true) (sym e) h)
          | no ne ↦ union_pts_ne d dst src v ne
        ]
