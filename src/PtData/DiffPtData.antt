-- ===== src/PtData/DiffPtData.antt =====
-- `DiffPTData` of src/pts_set/pt_data.rs: for each key the set that is still to be propagated and
-- the set that has been. A method on `&mut self` returns the new data beside its result.
pub mod View
pub mod Union
pub mod Keys
pub mod Flush
pub mod Edits
pub mod Clear
use rupta_fork.Base.{ℕ, List, [], Bool, true, false, ◌||◌, Option, none, some, if◌then◌else◌}
use rupta_fork.Base.HashMap
use rupta_fork.PtsSet.{PointsToSet}

pub record DiffPtData (K D : Type 0) : Type 0 where
  pub diff_pts_map : List (K × D)
  pub propa_pts_map : List (K × D)

unfoldable pub new : {K D : Type 0} → DiffPtData K D
new = record { diff_pts_map = []; propa_pts_map = [] }

unfoldable pub clear : {K D : Type 0} → DiffPtData K D → DiffPtData K D
clear d = record { diff_pts_map = []; propa_pts_map = [] }

module _ (P : PointsToSet) {K : Type 0} (dec : Discrete K) where
  open P use {Set}

  -- `entry(key).or_insert(DS::new())`, read.
  abbrev pub entry : List (K × Set) → K → Set
  entry m key = HashMap.get_or_default dec m key P.new

  unfoldable pub get_diff_pts : DiffPtData K Set → K → Option Set
  get_diff_pts d var = HashMap.get dec d.diff_pts_map var

  unfoldable pub get_propa_pts : DiffPtData K Set → K → Option Set
  get_propa_pts d var = HashMap.get dec d.propa_pts_map var

  -- The test of `add_pts`: the element has already been propagated.
  abbrev pub is_propagated : DiffPtData K Set → K → ℕ → Bool
  is_propagated d var elem = elim (HashMap.get dec d.propa_pts_map var) [
    | none ↦ false
    | some propa ↦ P.contains propa elem
  ]

  unfoldable pub add_pts : DiffPtData K Set → K → ℕ → DiffPtData K Set × Bool
  add_pts d var elem =
      if is_propagated d var elem
      then (d, false)
      else let (diff, changed) = P.insert (entry d.diff_pts_map var) elem in
        (record d { diff_pts_map = HashMap.insert dec d.diff_pts_map var diff }, changed)

  unfoldable pub union_pts_to : DiffPtData K Set → K → Set → DiffPtData K Set × Bool
  union_pts_to d dst_var src_ds =
      let diff = entry d.diff_pts_map dst_var in
      let propa = entry d.propa_pts_map dst_var in
      let fresh = (P.subtract src_ds propa).0 in
      let (diff', changed) = P.union diff fresh in
      (
        record {
          diff_pts_map = HashMap.insert dec d.diff_pts_map dst_var diff';
          propa_pts_map = HashMap.insert dec d.propa_pts_map dst_var propa;
        },
        changed,
      )

  -- `if let Some(ds) = map.get(&src_var) { changed |= self.union_pts_to(dst_var, &ds.clone()) }`
  unfoldable pub union_found : DiffPtData K Set → K → Option Set → DiffPtData K Set × Bool
  unfolding union_pts_to
  union_found d dst_var none = (d, false)
  union_found d dst_var (some src_ds) = union_pts_to d dst_var src_ds

  unfoldable pub union_diff_pts : DiffPtData K Set → K → K → DiffPtData K Set × Bool
  unfolding union_found
  union_diff_pts d dst_var src_var = elim (dec dst_var src_var) [
    | yes _ ↦ (d, false)
    | no _ ↦ union_found d dst_var (HashMap.get dec d.diff_pts_map src_var)
  ]

  unfoldable pub union_pts : DiffPtData K Set → K → K → DiffPtData K Set × Bool
  unfolding union_found
  union_pts d dst_var src_var = elim (dec dst_var src_var) [
    | yes _ ↦ (d, false)
    | no _ ↦
        let (d₁, changed₁) = union_found d dst_var (HashMap.get dec d.diff_pts_map src_var) in
        let (d₂, changed₂) = union_found d₁ dst_var (HashMap.get dec d₁.propa_pts_map src_var) in
        (d₂, changed₁ || changed₂)
  ]

  -- Both removals are made, whatever the first returns.
  unfoldable pub remove_pts_elem : DiffPtData K Set → K → ℕ → DiffPtData K Set × Bool
  remove_pts_elem d var elem =
      let (diff, in_diff) = P.remove (entry d.diff_pts_map var) elem in
      let (propa, in_propa) = P.remove (entry d.propa_pts_map var) elem in
      (
        record {
          diff_pts_map = HashMap.insert dec d.diff_pts_map var diff;
          propa_pts_map = HashMap.insert dec d.propa_pts_map var propa;
        },
        in_diff || in_propa,
      )

  unfoldable pub flush : DiffPtData K Set → K → DiffPtData K Set
  flush d var = elim (HashMap.get dec d.diff_pts_map var) [
    | none ↦ d
    | some diff ↦ record {
      diff_pts_map = HashMap.insert dec d.diff_pts_map var (P.clear diff);
      propa_pts_map =
          HashMap.insert dec d.propa_pts_map var (P.union (entry d.propa_pts_map var) diff).0;
    }
  ]

  -- `if let Some(ds) = map.get_mut(&var) { ds.clear() }`
  unfoldable pub clear_entry : List (K × Set) → K → List (K × Set)
  clear_entry m var = elim (HashMap.get dec m var) [
    | none ↦ m
    | some ds ↦ HashMap.insert dec m var (P.clear ds)
  ]

  unfoldable pub clear_pts : DiffPtData K Set → K → DiffPtData K Set
  unfolding clear_entry
  clear_pts d var = record {
    diff_pts_map = clear_entry d.diff_pts_map var;
    propa_pts_map = clear_entry d.propa_pts_map var;
  }

  unfoldable pub clear_diff_pts : DiffPtData K Set → K → DiffPtData K Set
  unfolding clear_entry
  clear_diff_pts d var = record d { diff_pts_map = clear_entry d.diff_pts_map var }

  unfoldable pub clear_propa_pts : DiffPtData K Set → K → DiffPtData K Set
  unfolding clear_entry
  clear_propa_pts d var = record d { propa_pts_map = clear_entry d.propa_pts_map var }
