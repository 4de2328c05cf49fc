-- ===== src/PtData/DiffPtData/Flush.antt =====
-- `flush`: after a node is processed its new pointees count as propagated.
use rupta_fork.Base.{
  ℕ, ◌≡◌, ◌≢◌, refl, sym, ap, ◌∙◌, true, false, ◌||◌, Option, none, some, arith, subst,
}
use mathlib.Core.Option
use rupta_fork.Base.HashMap
use rupta_fork.PtsSet.{PointsToSet}
use rupta_fork.PtData.DiffPtData.{DiffPtData, entry, flush}
use rupta_fork.Base.HashSet.{same}
use rupta_fork.PtData.DiffPtData.View.{
  in_diff, in_propa, points_to, IsStored, IsDisjoint, entry-insert_self, entry-insert_ne,
  insert-stored,
}

module _ (P : PointsToSet) {K : Type 0} (dec : Discrete K) where
  open P use {Set}

  module _ (d : DiffPtData K Set) (v : IsStored P dec d) (key : K) where
    -- What `flush` is to do: the set of the key is unchanged, and all of it has been propagated.
    pub record Flushes (r : DiffPtData K Set) : Type 0 where
      pub kept : (k : K) (x : ℕ) → points_to P dec r k x ≡ points_to P dec d k x
      pub drained : (x : ℕ) → in_diff P dec r key x ≡ false
      pub others : (k : K) (x : ℕ) → key ≢ k → in_diff P dec r k x ≡ in_diff P dec d k x
      pub stored : IsStored P dec r
      pub disjoint : IsDisjoint P dec d → IsDisjoint P dec r

    flushed : Set → DiffPtData K Set
    flushed diff = record {
      diff_pts_map = HashMap.insert dec d.diff_pts_map key (P.clear diff);
      propa_pts_map =
          HashMap.insert dec d.propa_pts_map key (P.union (entry P dec d.propa_pts_map key) diff).0;
    }

    flushed_at :
        (diff : Set) (x : ℕ)
        → (in_diff P dec (flushed diff) key x ≡ false)
          × (in_propa P dec (flushed diff) key x ≡ (in_propa P dec d key x || P.contains diff x))
    unfolding flushed
    flushed_at diff x = (
      ap (λ s. P.contains s x) (entry-insert_self P dec d.diff_pts_map key (P.clear diff))
          ∙ P.contains-clear diff x,
      ap (λ s. P.contains s x)
            (entry-insert_self P dec d.propa_pts_map key
              (P.union (entry P dec d.propa_pts_map key) diff).0)
          ∙ P.contains-union (entry P dec d.propa_pts_map key) diff x,
    )

    flushed_ne :
        (diff : Set) (k : K) (x : ℕ)
        → key ≢ k
        → (in_diff P dec (flushed diff) k x ≡ in_diff P dec d k x)
          × (in_propa P dec (flushed diff) k x ≡ in_propa P dec d k x)
    unfolding flushed
    flushed_ne diff k x ne = (
      ap (λ s. P.contains s x) (entry-insert_ne P dec d.diff_pts_map key k (P.clear diff) ne),
      ap (λ s. P.contains s x)
          (entry-insert_ne P dec d.propa_pts_map key k
            (P.union (entry P dec d.propa_pts_map key) diff).0 ne),
    )

    flushed-Flushes :
        (diff : Set)
        → P.IsValid diff
        → ((x : ℕ) → P.contains diff x ≡ in_diff P dec d key x)
        → Flushes (flushed diff)
    flushed-Flushes diff w same = record {
      kept = λ k x. elim (dec key k) [
        | yes e ↦
            subst (λ j. points_to P dec (flushed diff) j x ≡ points_to P dec d j x) e
              (ground (arith, flushed_at diff x, same x))
        | no ne ↦ ground (arith, flushed_ne diff k x ne)
      ];
      drained = λ x. (flushed_at diff x).0;
      others = λ k x ne. (flushed_ne diff k x ne).0;
      stored =
          unfold flushed in
          record {
            diff_valid =
                insert-stored P dec d.diff_pts_map key (P.clear diff) (P.clear-IsValid diff)
                  v.diff_valid;
            propa_valid =
                insert-stored P dec d.propa_pts_map key
                  (P.union (entry P dec d.propa_pts_map key) diff).0
                  (P.union-IsValid (entry P dec d.propa_pts_map key) diff (v.propa_valid key) w)
                  v.propa_valid;
          };
      disjoint = λ dis k x. elim (dec key k) [
        | yes e ↦
            subst
              (λ j.
                in_diff P dec (flushed diff) j x ≡ true → in_propa P dec (flushed diff) j x ≡ false)
              e (λ h. ground (arith, flushed_at diff x))
        | no ne ↦ λ h. ground (arith, dis k x, flushed_ne diff k x ne)
      ];
    }

    flush_case :
        (o : Option Set)
        → HashMap.get dec d.diff_pts_map key ≡ o
        → Flushes (elim o [ none ↦ d | some diff ↦ flushed diff ])
    flush_case none e = record {
      kept = λ k x. refl;
      drained = λ x. ap (λ o. P.contains (Option.get_or o P.new) x) e ∙ P.contains-new x;
      others = λ k x ne. refl;
      stored = v;
      disjoint = λ h. h;
    }
    flush_case (some diff) e =
        flushed-Flushes diff (subst (λ o. P.IsValid (Option.get_or o P.new)) e (v.diff_valid key))
          (λ x. ap (λ o. P.contains (Option.get_or o P.new) x) (sym e))

    -- When all stored sets are valid, `flush` changes the points-to set of no key, leaves its
    -- key nothing to propagate, changes what no other key has to propagate, keeps the stored
    -- sets valid, and if nothing to be propagated has been propagated before, that stays so.
    pub flush-Flushes : Flushes (flush P dec d key)
    unfolding flush flushed
    flush-Flushes = flush_case (HashMap.get dec d.diff_pts_map key) refl
