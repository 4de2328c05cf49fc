-- ===== src/PtData/DiffPtData/Union.antt =====
-- `union_pts_to`: the elements that it adds, its flag, and the invariants.
use rupta_fork.Base.{ℕ, ◌≡◌, ◌≢◌, ◌↔◌, ap, ◌∙◌, true, false, not, ◌&&◌, ◌||◌, arith, subst}
use rupta_fork.PtsSet.{PointsToSet}
use rupta_fork.PtData.DiffPtData.{DiffPtData, entry, union_pts_to}
use rupta_fork.Base.HashSet.{same}
use rupta_fork.PtData.DiffPtData.View.{
  in_diff, in_propa, points_to, IsStored, IsDisjoint, entry-insert_self, entry-insert_ne,
  insert-stored,
}

module _ (P : PointsToSet) {K : Type 0} (dec : Discrete K) where
  open P use {Set}

  module _ (d : DiffPtData K Set) (stored : IsStored P dec d) (dst : K) (src : Set)
      (valid : P.IsValid src) where
    abbrev fresh : Set
    fresh = (P.subtract src (entry P dec d.propa_pts_map dst)).0

    fresh_valid : P.IsValid fresh
    fresh_valid =
        P.subtract-IsValid src (entry P dec d.propa_pts_map dst) valid (stored.propa_valid dst)

    in_fresh : (x : ℕ) → P.contains fresh x ≡ (P.contains src x && not (in_propa P dec d dst x))
    in_fresh x =
        P.contains-subtract src (entry P dec d.propa_pts_map dst) x (stored.propa_valid dst)

    in_diff-union_self :
        (x : ℕ)
        → in_diff P dec (union_pts_to P dec d dst src).0 dst x
          ≡ (in_diff P dec d dst x || P.contains src x && not (in_propa P dec d dst x))
    unfolding union_pts_to
    in_diff-union_self x =
        ap (λ s. P.contains s x)
          (entry-insert_self P dec d.diff_pts_map dst
            (P.union (entry P dec d.diff_pts_map dst) fresh).0)
        ∙ P.contains-union (entry P dec d.diff_pts_map dst) fresh x
        ∙ ap (λ b. in_diff P dec d dst x || b) (in_fresh x)

    pub in_propa-union_pts_to :
        (k : K) (x : ℕ) → in_propa P dec (union_pts_to P dec d dst src).0 k x ≡ in_propa P dec d k x
    unfolding union_pts_to
    in_propa-union_pts_to k x = elim (dec dst k) [
      | yes e ↦
          subst (λ j. in_propa P dec (union_pts_to P dec d dst src).0 j x ≡ in_propa P dec d j x) e
            (ap (λ s. P.contains s x)
              (entry-insert_self P dec d.propa_pts_map dst (entry P dec d.propa_pts_map dst)))
      | no ne ↦
          ap (λ s. P.contains s x)
            (entry-insert_ne P dec d.propa_pts_map dst k (entry P dec d.propa_pts_map dst) ne)
    ]

    in_diff-union_ne :
        (k : K) (x : ℕ)
        → dst ≢ k
        → in_diff P dec (union_pts_to P dec d dst src).0 k x ≡ in_diff P dec d k x
    unfolding union_pts_to
    in_diff-union_ne k x ne =
        ap (λ s. P.contains s x)
          (entry-insert_ne P dec d.diff_pts_map dst k
            (P.union (entry P dec d.diff_pts_map dst) fresh).0 ne)

    -- When all stored sets and the source are valid, `union_pts_to` adds the elements of the
    -- source to the points-to set of the destination, and changes that of no other key.
    pub points_to-union_pts_to :
        (k : K) (x : ℕ)
        → points_to P dec (union_pts_to P dec d dst src).0 k x
          ≡ (same dec dst k && P.contains src x || points_to P dec d k x)
    points_to-union_pts_to k x =
        elim (dec dst k)
          as (λ q. points_to P dec (union_pts_to P dec d dst src).0 k x ≡ (
            elim q [ yes _ ↦ true | no _ ↦ false ] && P.contains src x || points_to P dec d k x)) [
              | yes e ↦
                  subst
                    (λ j.
                      points_to P dec (union_pts_to P dec d dst src).0 j x
                      ≡ (P.contains src x || points_to P dec d j x))
                    e (ground (arith, in_diff-union_self x, in_propa-union_pts_to dst x))
              | no ne ↦ ground (arith, in_diff-union_ne k x ne, in_propa-union_pts_to k x)
            ]

    -- What it adds is still to be propagated, and nothing more than what has not been.
    pub in_diff-union_pts_to :
        (k : K) (x : ℕ)
        → in_diff P dec (union_pts_to P dec d dst src).0 k x ≡ (
            same dec dst k && (P.contains src x && not (in_propa P dec d k x))
            || in_diff P dec d k x)
    in_diff-union_pts_to k x =
        elim (dec dst k)
          as (λ q. in_diff P dec (union_pts_to P dec d dst src).0 k x ≡ (
            elim q [ yes _ ↦ true | no _ ↦ false ]
              && (P.contains src x && not (in_propa P dec d k x))
            || in_diff P dec d k x)) [
              | yes e ↦
                  subst
                    (λ j.
                      in_diff P dec (union_pts_to P dec d dst src).0 j x
                      ≡ (P.contains src x && not (in_propa P dec d j x) || in_diff P dec d j x))
                    e (ground (arith, in_diff-union_self x))
              | no ne ↦ in_diff-union_ne k x ne
            ]

    -- When all stored sets and the source are valid, the flag of `union_pts_to` is down exactly
    -- when the points-to set of the destination had every element of the source.
    pub union_pts_to_changed :
        ((union_pts_to P dec d dst src).1 ≡ false)
        ↔ ((x : ℕ) → P.contains src x ≡ true → points_to P dec d dst x ≡ true)
    unfolding union_pts_to
    union_pts_to_changed =
        let diff = entry P dec d.diff_pts_map dst in
        let iff = P.union_changed diff fresh (stored.diff_valid dst) fresh_valid in
        (
          (λ down x h. ground (arith, iff.0 down x, P.contains-union diff fresh x, in_fresh x)),
          (λ all. iff.1 (λ x. ground (arith, all x, P.contains-union diff fresh x, in_fresh x))),
        )

    pub union_pts_to-IsStored : IsStored P dec (union_pts_to P dec d dst src).0
    unfolding union_pts_to
    union_pts_to-IsStored = record {
      diff_valid =
          insert-stored P dec d.diff_pts_map dst (P.union (entry P dec d.diff_pts_map dst) fresh).0
            (P.union-IsValid (entry P dec d.diff_pts_map dst) fresh (stored.diff_valid dst)
              fresh_valid)
            stored.diff_valid;
      propa_valid =
          insert-stored P dec d.propa_pts_map dst (entry P dec d.propa_pts_map dst)
            (stored.propa_valid dst) stored.propa_valid;
    }

    -- When all stored sets and the source are valid and nothing to be propagated has been
    -- propagated before, that stays so after `union_pts_to`.
    pub union_pts_to-IsDisjoint :
        IsDisjoint P dec d → IsDisjoint P dec (union_pts_to P dec d dst src).0
    union_pts_to-IsDisjoint dis k x = elim (dec dst k) [
      | yes e ↦
          subst
            (λ j.
              in_diff P dec (union_pts_to P dec d dst src).0 j x ≡ true
              → in_propa P dec (union_pts_to P dec d dst src).0 j x ≡ false)
            e (λ h. ground (arith, dis dst x, in_diff-union_self x, in_propa-union_pts_to dst x))
      | no ne ↦ λ h. ground (arith, dis k x, in_diff-union_ne k x ne, in_propa-union_pts_to k x)
    ]
