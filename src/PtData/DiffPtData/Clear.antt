-- ===== src/PtData/DiffPtData/Clear.antt =====
-- `clear_pts`, `clear_diff_pts` and `clear_propa_pts`: both sets of a key emptied, or one of them.
use rupta_fork.Base.{
  ℕ, ◌≡◌, refl, ap, subst, ◌∙◌, List, true, false, not, ◌&&◌, ◌||◌, Option, none, some, arith,
}
use mathlib.Core.Option
use rupta_fork.Base.HashMap
use rupta_fork.Base.HashSet.{same}
use rupta_fork.PtsSet.{PointsToSet}
use rupta_fork.PtData.DiffPtData.{
  DiffPtData, entry, clear_entry, clear_pts, clear_diff_pts, clear_propa_pts,
}
use rupta_fork.PtData.DiffPtData.View.{
  in_diff, in_propa, points_to, entry-insert_self, entry-insert_ne,
}

module _ (P : PointsToSet) {K : Type 0} (dec : Discrete K) where
  open P use {Set}

  entry_found :
      (m : List (K × Set)) (var k : K) (x : ℕ) (o : Option Set)
      → HashMap.get dec m var ≡ o
      → P.contains
          (entry P dec (elim o [ none ↦ m | some ds ↦ HashMap.insert dec m var (P.clear ds) ]) k)
          x
        ≡ (not (same dec var k) && P.contains (entry P dec m k) x)
  entry_found m var k x none e =
      elim (dec var k)
        as (λ q.
          P.contains (entry P dec m k) x
          ≡ (not (elim q [ yes _ ↦ true | no _ ↦ false ]) && P.contains (entry P dec m k) x)) [
            | yes q ↦
                subst (λ j. P.contains (entry P dec m j) x ≡ false) q
                  (ap (λ o. P.contains (Option.get_or o P.new) x) e ∙ P.contains-new x)
            | no _ ↦ refl
          ]
  entry_found m var k x (some ds) e =
      elim (dec var k)
        as (λ q.
          P.contains (entry P dec (HashMap.insert dec m var (P.clear ds)) k) x
          ≡ (not (elim q [ yes _ ↦ true | no _ ↦ false ]) && P.contains (entry P dec m k) x)) [
            | yes q ↦
                subst
                  (λ j.
                    P.contains (entry P dec (HashMap.insert dec m var (P.clear ds)) j) x ≡ false)
                  q
                  (ap (λ s. P.contains s x) (entry-insert_self P dec m var (P.clear ds))
                    ∙ P.contains-clear ds x)
            | no ne ↦ ap (λ s. P.contains s x) (entry-insert_ne P dec m var k (P.clear ds) ne)
          ]

  contains-clear_entry :
      (m : List (K × Set)) (var k : K) (x : ℕ)
      → P.contains (entry P dec (clear_entry P dec m var) k) x
        ≡ (not (same dec var k) && P.contains (entry P dec m k) x)
  unfolding clear_entry
  contains-clear_entry m var k x = entry_found m var k x (HashMap.get dec m var) refl

  -- `clear_pts` empties the points-to set of its key, `clear_diff_pts` leaves it what has been
  -- propagated, `clear_propa_pts` what has still to be, and none of them changes the set of
  -- another key.
  pub clear_pts_lem :
      (d : DiffPtData K Set) (var k : K) (x : ℕ)
      → (points_to P dec (clear_pts P dec d var) k x
          ≡ (not (same dec var k) && points_to P dec d k x))
        × (points_to P dec (clear_diff_pts P dec d var) k x
            ≡ (not (same dec var k) && in_diff P dec d k x || in_propa P dec d k x))
        × (points_to P dec (clear_propa_pts P dec d var) k x
            ≡ (in_diff P dec d k x || not (same dec var k) && in_propa P dec d k x))
  unfolding clear_pts clear_diff_pts clear_propa_pts
  clear_pts_lem d var k x =
      let diff = contains-clear_entry d.diff_pts_map var k x in
      let propa = contains-clear_entry d.propa_pts_map var k x in
      (
        ground (arith, diff, propa),
        ap (λ b. b || in_propa P dec d k x) diff,
        ap (λ b. in_diff P dec d k x || b) propa,
      )
