-- ===== src/PtData/DiffPtData/View.antt =====
-- What `DiffPTData` says of a key: the view that the laws of its methods share, and the invariant.
use rupta_fork.Base.{
  ℕ, ◌≡◌, ◌≢◌, refl, sym, ◌∙◌, List, Bool, true, false, ◌||◌, arith, subst, ite, if_pos, if_neg,
}
use rupta_fork.Base.HashMap
use rupta_fork.PtsSet.{PointsToSet}
use rupta_fork.PtData.DiffPtData.{DiffPtData, new, entry, is_propagated}

module _ (P : PointsToSet) {K : Type 0} (dec : Discrete K) where
  open P use {Set}

  abbrev pub in_diff : DiffPtData K Set → K → ℕ → Bool
  in_diff d k x = P.contains (entry P dec d.diff_pts_map k) x

  abbrev pub in_propa : DiffPtData K Set → K → ℕ → Bool
  in_propa d k x = P.contains (entry P dec d.propa_pts_map k) x

  -- The points-to set of a key: what is still to be propagated, and what has been.
  abbrev pub points_to : DiffPtData K Set → K → ℕ → Bool
  points_to d k x = in_diff d k x || in_propa d k x

  -- The stored sets are valid.
  pub record IsStored (d : DiffPtData K Set) : Type 0 where
    pub diff_valid : (k : K) → P.IsValid (entry P dec d.diff_pts_map k)
    pub propa_valid : (k : K) → P.IsValid (entry P dec d.propa_pts_map k)

  -- Nothing is propagated twice: what is in `diff` has not been propagated.
  abbrev pub IsDisjoint : DiffPtData K Set → Type 0
  IsDisjoint d = (k : K) (x : ℕ) → in_diff d k x ≡ true → in_propa d k x ≡ false

  pub entry-insert :
      (m : List (K × Set)) (k j : K) (s : Set)
      → entry P dec (HashMap.insert dec m k s) j ≡ ite (dec k j) s (entry P dec m j)
  entry-insert m k j s = ground (arith, HashMap.get-insert dec m k j s)

  pub entry-insert_self :
      (m : List (K × Set)) (k : K) (s : Set) → entry P dec (HashMap.insert dec m k s) k ≡ s
  entry-insert_self m k s = entry-insert m k k s ∙ if_pos (dec k k) refl _ _

  pub entry-insert_ne :
      (m : List (K × Set)) (k j : K) (s : Set)
      → k ≢ j
      → entry P dec (HashMap.insert dec m k s) j ≡ entry P dec m j
  entry-insert_ne m k j s ne = entry-insert m k j s ∙ if_neg (dec k j) ne _ _

  -- A map of valid sets stays one when a valid set is stored.
  pub insert-stored :
      (m : List (K × Set)) (k : K) (s : Set)
      → P.IsValid s
      → ((j : K) → P.IsValid (entry P dec m j))
      → (j : K) → P.IsValid (entry P dec (HashMap.insert dec m k s) j)
  insert-stored m k s v w j = elim (dec k j) [
    | yes e ↦ subst P.IsValid (sym (entry-insert m k j s ∙ if_pos (dec k j) e _ _)) v
    | no ne ↦ subst P.IsValid (sym (entry-insert_ne m k j s ne)) (w j)
  ]

  pub is_propagated-in_propa :
      (d : DiffPtData K Set) (k : K) (x : ℕ) → is_propagated P dec d k x ≡ in_propa d k x
  is_propagated-in_propa d k x = ground (arith, P.contains-new x)

  pub new-IsStored : IsStored new
  unfolding new HashMap.get
  new-IsStored = record { diff_valid = λ k. P.new-IsValid; propa_valid = λ k. P.new-IsValid }

  pub points_to-new : (k : K) (x : ℕ) → points_to new k x ≡ false
  unfolding new HashMap.get
  points_to-new k x = ground (arith, P.contains-new x)

  pub new-IsDisjoint : IsDisjoint new
  unfolding new HashMap.get
  new-IsDisjoint k x h = P.contains-new x
