-- ===== src/PtData/DiffPtData/Edits.antt =====
-- `add_pts` and `remove_pts_elem`: one element of one key.
use rupta_fork.Base.{
  ℕ, ◌^◌, ◌<◌, ◌≡◌, ◌≢◌, inl, inr, refl, sym, ap, ◌∙◌, Bool, true, false, not, ◌&&◌, ◌||◌, arith,
  ◌==◌, Bool-cases, subst, ℕ_discrete,
}
use rupta_fork.Base.HashMap
use rupta_fork.PtsSet.{PointsToSet}
use rupta_fork.PtData.DiffPtData.{DiffPtData, entry, is_propagated, add_pts, remove_pts_elem}
use rupta_fork.Base.HashSet.{same}
use rupta_fork.PtData.DiffPtData.View.{
  in_diff, in_propa, points_to, IsStored, IsDisjoint, entry-insert_self, entry-insert_ne,
  insert-stored, is_propagated-in_propa,
}

module _ (P : PointsToSet) {K : Type 0} (dec : Discrete K) where
  open P use {Set}

  module _ (d : DiffPtData K Set) (v : IsStored P dec d) (key : K) (elem : ℕ) where
    -- What `add_pts` is to do.
    pub record Adds (r : DiffPtData K Set × Bool) : Type 0 where
      pub holds :
          (k : K) (x : ℕ)
          → points_to P dec r.0 k x ≡ (same dec key k && x == elem || points_to P dec d k x)
      pub diff :
          (k : K) (x : ℕ)
          → in_diff P dec r.0 k x
            ≡ (same dec key k && (x == elem && not (in_propa P dec d k x)) || in_diff P dec d k x)
      pub propa : (k : K) (x : ℕ) → in_propa P dec r.0 k x ≡ in_propa P dec d k x
      pub flag : r.1 ≡ not (points_to P dec d key elem)
      pub stored : IsStored P dec r.0
      pub disjoint : IsDisjoint P dec d → IsDisjoint P dec r.0

    inserted : DiffPtData K Set × Bool
    inserted =
        let r = P.insert (entry P dec d.diff_pts_map key) elem in
        (record d { diff_pts_map = HashMap.insert dec d.diff_pts_map key r.0 }, r.1)

    inserted_self : (x : ℕ) → in_diff P dec inserted.0 key x ≡ (x == elem || in_diff P dec d key x)
    unfolding inserted
    inserted_self x =
        ap (λ s. P.contains s x)
          (entry-insert_self P dec d.diff_pts_map key
            (P.insert (entry P dec d.diff_pts_map key) elem).0)
        ∙ P.contains-insert (entry P dec d.diff_pts_map key) elem x

    inserted_ne : (k : K) (x : ℕ) → key ≢ k → in_diff P dec inserted.0 k x ≡ in_diff P dec d k x
    unfolding inserted
    inserted_ne k x ne =
        ap (λ s. P.contains s x)
          (entry-insert_ne P dec d.diff_pts_map key k
            (P.insert (entry P dec d.diff_pts_map key) elem).0 ne)

    inserted_propa : (k : K) (x : ℕ) → in_propa P dec inserted.0 k x ≡ in_propa P dec d k x
    unfolding inserted
    inserted_propa k x = refl

    inserted_flag : inserted.1 ≡ not (in_diff P dec d key elem)
    unfolding inserted
    inserted_flag = P.insert_changed (entry P dec d.diff_pts_map key) elem

    inserted_stored : elem < 2 ^ 64 → IsStored P dec inserted.0
    unfolding inserted
    inserted_stored h = record {
      diff_valid =
          insert-stored P dec d.diff_pts_map key (P.insert (entry P dec d.diff_pts_map key) elem).0
            (P.insert-IsValid (entry P dec d.diff_pts_map key) elem h (v.diff_valid key))
            v.diff_valid;
      propa_valid = v.propa_valid;
    }

    add_fresh-Adds : elem < 2 ^ 64 → in_propa P dec d key elem ≡ false → Adds inserted
    add_fresh-Adds h new_elem = record {
      holds = λ k x.
          elim (dec key k)
            as (λ q.
              points_to P dec inserted.0 k x
              ≡ (elim q [ yes _ ↦ true | no _ ↦ false ] && x == elem || points_to P dec d k x)) [
                | yes e ↦
                    subst
                      (λ j. points_to P dec inserted.0 j x ≡ (x == elem || points_to P dec d j x)) e
                      (ground (arith, inserted_self x, inserted_propa key x))
                | no ne ↦ ground (arith, inserted_ne k x ne, inserted_propa k x)
              ];
      diff = λ k x.
          elim (dec key k)
            as (λ q. in_diff P dec inserted.0 k x ≡ (
              elim q [ yes _ ↦ true | no _ ↦ false ] && (x == elem && not (in_propa P dec d k x))
              || in_diff P dec d k x)) [
                | yes e ↦
                    subst
                      (λ j.
                        in_diff P dec inserted.0 j x
                        ≡ (x == elem && not (in_propa P dec d j x) || in_diff P dec d j x))
                      e
                      (inserted_self x ∙ elim (ℕ_discrete x elem) [
                        | yes q ↦
                            let out : in_propa P dec d key x ≡ false =
                              ap (in_propa P dec d key) q ∙ new_elem in
                            ground (arith, out)
                        | no _ ↦ ground arith
                      ])
                | no ne ↦ inserted_ne k x ne
              ];
      propa = inserted_propa;
      flag = ground (arith, inserted_flag);
      stored = inserted_stored h;
      disjoint = λ dis k x. elim (dec key k) [
        | yes e ↦
            subst (λ j. in_diff P dec inserted.0 j x ≡ true → in_propa P dec inserted.0 j x ≡ false)
              e
              (λ m. elim (ℕ_discrete x elem) [
                | yes q ↦
                    subst (λ y. in_propa P dec inserted.0 key y ≡ false) (sym q)
                      (inserted_propa key elem ∙ new_elem)
                | no ne ↦ ground (arith, dis key x, inserted_self x, inserted_propa key x)
              ])
        | no ne ↦ λ m. ground (arith, dis k x, inserted_ne k x ne, inserted_propa k x)
      ];
    }

    add_known-Adds : in_propa P dec d key elem ≡ true → Adds (d, false)
    add_known-Adds old = record {
      holds = λ k x.
          elim (dec key k)
            as (λ q.
              points_to P dec d k x
              ≡ (elim q [ yes _ ↦ true | no _ ↦ false ] && x == elem || points_to P dec d k x)) [
                | yes e ↦
                    subst (λ j. points_to P dec d j x ≡ (x == elem || points_to P dec d j x)) e
                      (elim (ℕ_discrete x elem) [
                        | yes q ↦
                            subst
                              (λ y.
                                points_to P dec d key y ≡ (y == elem || points_to P dec d key y))
                              (sym q) (ground arith)
                        | no ne ↦ ground arith
                      ])
                | no ne ↦ refl
              ];
      diff = λ k x.
          elim (dec key k)
            as (λ q. in_diff P dec d k x ≡ (
              elim q [ yes _ ↦ true | no _ ↦ false ] && (x == elem && not (in_propa P dec d k x))
              || in_diff P dec d k x)) [
                | yes e ↦ elim (ℕ_discrete x elem) [
                  | yes q ↦
                      let done : in_propa P dec d k x ≡ true =
                        subst (λ j. in_propa P dec d j x ≡ true) e
                          (ap (in_propa P dec d key) q ∙ old) in
                      ground (arith, done)
                  | no _ ↦ ground arith
                ]
                | no ne ↦ refl
              ];
      propa = λ k x. refl;
      flag = ground arith;
      stored = v;
      disjoint = λ h. h;
    }

    -- When all stored sets are valid and the element is below 2^64, `add_pts` adds the
    -- element to the points-to set of its key and nothing else; it is then still to be
    -- propagated, unless it has been propagated, and no propagated set changes. Its flag
    -- says whether the element is new to the points-to set, the stored sets stay valid, and
    -- if nothing to be propagated has been propagated before, that stays so.
    pub add_pts-Adds : elem < 2 ^ 64 → Adds (add_pts P dec d key elem)
    unfolding add_pts inserted
    add_pts-Adds h = elim (Bool-cases (is_propagated P dec d key elem)) [
      | inl old ↦
          rw (old, add_pts) (add_known-Adds (sym (is_propagated-in_propa P dec d key elem) ∙ old))
      | inr fresh ↦
          rw (fresh, add_pts)
            (add_fresh-Adds h (sym (is_propagated-in_propa P dec d key elem) ∙ fresh))
    ]

    -- When all stored sets are valid, `remove_pts_elem` takes the element out of the points-to
    -- set of its key, both of its parts, and changes nothing else.
    pub points_to-remove_pts_elem :
        (k : K) (x : ℕ)
        → points_to P dec (remove_pts_elem P dec d key elem).0 k x
          ≡ (not (same dec key k && x == elem) && points_to P dec d k x)
    unfolding remove_pts_elem
    points_to-remove_pts_elem k x =
        elim (dec key k)
          as (λ q. points_to P dec removed k x ≡ (
            not (elim q [ yes _ ↦ true | no _ ↦ false ] && x == elem) && points_to P dec d k x)) [
              | yes e ↦
                  subst
                    (λ j. points_to P dec removed j x ≡ (not (x == elem) && points_to P dec d j x))
                    e
                    (ground (
                      arith,
                      ap (λ s. P.contains s x)
                          (entry-insert_self P dec d.diff_pts_map key (P.remove diff elem).0),
                      ap (λ s. P.contains s x)
                          (entry-insert_self P dec d.propa_pts_map key (P.remove propa elem).0),
                      P.contains-remove diff elem x (v.diff_valid key),
                      P.contains-remove propa elem x (v.propa_valid key),
                    ))
              | no ne ↦ ground (
                arith,
                ap (λ s. P.contains s x)
                    (entry-insert_ne P dec d.diff_pts_map key k (P.remove diff elem).0 ne),
                ap (λ s. P.contains s x)
                    (entry-insert_ne P dec d.propa_pts_map key k (P.remove propa elem).0 ne),
              )
            ]
      where
        diff : Set
        diff = entry P dec d.diff_pts_map key

        propa : Set
        propa = entry P dec d.propa_pts_map key

        removed : DiffPtData K Set
        removed = (remove_pts_elem P dec d key elem).0

    -- When all stored sets are valid, the flag of `remove_pts_elem` says whether the element
    -- was in the points-to set of the key.
    pub remove_pts_elem_changed : (remove_pts_elem P dec d key elem).1 ≡ points_to P dec d key elem
    unfolding remove_pts_elem
    remove_pts_elem_changed = ground (
      arith,
      P.remove_changed (entry P dec d.diff_pts_map key) elem (v.diff_valid key),
      P.remove_changed (entry P dec d.propa_pts_map key) elem (v.propa_valid key),
    )
