-- ===== src/PtData/BasePtData.antt =====
-- `BasePTData` of src/pts_set/pt_data.rs: for each key its set, and for each element the keys whose
-- set has it. `none` stands for the panic of the `unwrap` in `clear_pts`. A set is read by the list
-- that its iterator visits.
pub mod Mirror
pub mod Correct
pub mod Removal
use rupta_fork.Base.{ℕ, List, [], ◌∷◌, Bool, true, false, Option, none, some, ℕ_discrete}
use mathlib.Core.Option
use rupta_fork.Base.HashMap
use rupta_fork.Base.HashSet
use rupta_fork.PtsSet.{PointsToSet}
use rupta_fork.CallSite.Assoc.{add_to}

pub record BasePtData (K D : Type 0) : Type 0 where
  pub pts_map : List (K × D)
  pub rev_pts_map : List (ℕ × List K)

unfoldable pub new : {K D : Type 0} → BasePtData K D
new = record { pts_map = []; rev_pts_map = [] }

unfoldable pub clear : {K D : Type 0} → BasePtData K D → BasePtData K D
clear d = record { pts_map = []; rev_pts_map = [] }

module _ {K : Type 0} (dec : Discrete K) where
  -- The loop of `add_rev_pts` over the elements.
  unfoldable pub add_rev_loop : List ℕ → List (ℕ × List K) → K → List (ℕ × List K)
  unfolding add_to
  add_rev_loop [] rev var = rev
  add_rev_loop (elem ∷ elems) rev var = add_rev_loop elems (add_to ℕ_discrete dec rev elem var) var

  -- `if let Some(vars) = rev.get_mut(&elem) { vars.remove(&var) }`
  unfoldable pub remove_rev : List (ℕ × List K) → K → ℕ → List (ℕ × List K)
  remove_rev rev var elem = elim (HashMap.get ℕ_discrete rev elem) [
    | none ↦ rev
    | some vars ↦ HashMap.insert ℕ_discrete rev elem (HashSet.remove dec vars var)
  ]

  -- The loop of `clear_pts`, with the `unwrap` of each round.
  unfoldable pub clear_rev_loop : List ℕ → List (ℕ × List K) → K → Option (List (ℕ × List K))
  clear_rev_loop [] rev var = some rev
  clear_rev_loop (elem ∷ elems) rev var = elim (HashMap.get ℕ_discrete rev elem) [
    | none ↦ none
    | some vars ↦
        clear_rev_loop elems (HashMap.insert ℕ_discrete rev elem (HashSet.remove dec vars var)) var
  ]

module _ (P : PointsToSet) {K : Type 0} (dec : Discrete K) where
  open P use {Set}

  unfoldable pub get_pts : BasePtData K Set → K → Option Set
  get_pts d var = HashMap.get dec d.pts_map var

  unfoldable pub get_rev_pts : BasePtData K Set → ℕ → Option (List K)
  get_rev_pts d elem = HashMap.get ℕ_discrete d.rev_pts_map elem

  abbrev pub entry : List (K × Set) → K → Set
  entry m var = HashMap.get_or_default dec m var P.new

  unfoldable pub add_rev_pts : List (ℕ × List K) → Set → K → List (ℕ × List K)
  unfolding add_rev_loop
  add_rev_pts rev data_set var = add_rev_loop dec (P.to_list data_set) rev var

  unfoldable pub add_pts : BasePtData K Set → K → ℕ → BasePtData K Set × Bool
  unfolding add_to
  add_pts d var elem =
      let rev = add_to ℕ_discrete dec d.rev_pts_map elem var in
      let (pts, changed) = P.insert (entry d.pts_map var) elem in
      (record { pts_map = HashMap.insert dec d.pts_map var pts; rev_pts_map = rev }, changed)

  unfoldable pub union_pts_to : BasePtData K Set → K → Set → BasePtData K Set × Bool
  unfolding add_rev_pts
  union_pts_to d dst_var src_ds =
      let rev = add_rev_pts d.rev_pts_map src_ds dst_var in
      let (dst_ds, changed) = P.union (entry d.pts_map dst_var) src_ds in
      (record { pts_map = HashMap.insert dec d.pts_map dst_var dst_ds; rev_pts_map = rev }, changed)

  -- The entry of the destination is made before the source is read, which matters only where the
  -- two are one key, and there the entry is the source.
  unfoldable pub union_pts : BasePtData K Set → K → K → BasePtData K Set × Bool
  unfolding union_pts_to
  union_pts d dst_var src_var = elim (HashMap.get dec d.pts_map src_var) [
    | none ↦ (d, false)
    | some src_ds ↦ union_pts_to d dst_var src_ds
  ]

  unfoldable pub remove_pts_elem : BasePtData K Set → K → ℕ → BasePtData K Set × Bool
  unfolding remove_rev
  remove_pts_elem d var elem =
      let rev = remove_rev dec d.rev_pts_map var elem in
      elim (HashMap.get dec d.pts_map var) [
        | none ↦ (record d { rev_pts_map = rev }, false)
        | some pts ↦
            let (pts', changed) = P.remove pts elem in
            (record { pts_map = HashMap.insert dec d.pts_map var pts'; rev_pts_map = rev }, changed)
      ]

  unfoldable pub clear_pts : BasePtData K Set → K → Option (BasePtData K Set)
  unfolding clear_rev_loop
  clear_pts d var = elim (HashMap.get dec d.pts_map var) [
    | none ↦ some d
    | some pts ↦
        Option.map
          (λ rev. record {
            pts_map = HashMap.insert dec d.pts_map var (P.clear pts);
            rev_pts_map = rev;
          })
          (clear_rev_loop dec (P.to_list pts) d.rev_pts_map var)
  ]
