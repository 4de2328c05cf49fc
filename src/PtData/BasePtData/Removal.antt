-- ===== src/PtData/BasePtData/Removal.antt =====
-- `remove_pts_elem` and `clear_pts` of `BasePTData`, which take keys out of the reverse map.
use rupta_fork.Base.{
  ℕ, ◌≡◌, ◌==◌, refl, sym, ap, subst, ◌∙◌, List, [], Bool, true, false, not, ◌&&◌, Option, none,
  some, has, arith,
}
use mathlib.Core.Option
use rupta_fork.Base.HashMap
use rupta_fork.Base.HashSet
use rupta_fork.Base.HashSet.{same}
use rupta_fork.PtsSet.{PointsToSet}
use rupta_fork.PtData.BasePtData.{
  BasePtData, remove_rev, remove_pts_elem, clear_rev_loop, clear_pts,
}
use rupta_fork.PtData.BasePtData.Mirror.{in_rev, in_rev-remove_rev, IsListed, clear_rev_loop_lem}
use rupta_fork.PtData.BasePtData.Correct.{in_pts, IsMirrored, put, in_pts-put, put-IsMirrored}

module _ (P : PointsToSet) {K : Type 0} (dec : Discrete K) where
  open P use {Set}

  module _ (d : BasePtData K Set) (m : IsMirrored P dec d) (var : K) where
    -- The set of the key, by what the lookup gives.
    found_contains :
        (o : Option Set) (x : ℕ)
        → HashMap.get dec d.pts_map var ≡ o
        → P.contains (Option.get_or o P.new) x ≡ in_pts P dec d var x
    found_contains o x e = ap (λ o. P.contains (Option.get_or o P.new) x) (sym e)

    found_valid :
        (o : Option Set) → HashMap.get dec d.pts_map var ≡ o → P.IsValid (Option.get_or o P.new)
    found_valid o e = subst (λ o. P.IsValid (Option.get_or o P.new)) e (m.stored var)

    -- What `remove_pts_elem` is to do.
    pub record Removes (elem : ℕ) (r : BasePtData K Set × Bool) : Type 0 where
      pub holds :
          (k : K) (x : ℕ)
          → in_pts P dec r.0 k x ≡ (not (same dec var k && x == elem) && in_pts P dec d k x)
      pub flag : r.1 ≡ in_pts P dec d var elem
      pub mirrored : IsMirrored P dec r.0

    none_left :
        (elem : ℕ) (k : K) (x : ℕ)
        → HashMap.get dec d.pts_map var ≡ none
        → in_pts P dec d k x ≡ (not (same dec var k && x == elem) && in_pts P dec d k x)
    none_left elem k x e =
        elim (dec var k)
          as (λ q.
            in_pts P dec d k x
            ≡ (not (elim q [ yes _ ↦ true | no _ ↦ false ] && x == elem) && in_pts P dec d k x)) [
              | yes q ↦
                  subst (λ j. in_pts P dec d j x ≡ (not (x == elem) && in_pts P dec d j x)) q
                    (ground (arith, found_contains none x e, P.contains-new x))
              | no _ ↦ refl
            ]

    remove_case :
        (elem : ℕ) (o : Option Set)
        → HashMap.get dec d.pts_map var ≡ o
        → Removes elem (elim o [
          | none ↦ (record d { rev_pts_map = remove_rev dec d.rev_pts_map var elem }, false)
          | some pts ↦ (
            put P dec d var (P.remove pts elem).0 (remove_rev dec d.rev_pts_map var elem),
            (P.remove pts elem).1,
          )
        ])
    remove_case elem none e = record {
      holds = λ k x. none_left elem k x e;
      flag = sym (P.contains-new elem) ∙ found_contains none elem e;
      mirrored = record {
        stored = m.stored;
        mirrored = λ x k. ground (
          arith,
          in_rev-remove_rev dec d.rev_pts_map var elem x k,
          m.mirrored x k,
          none_left elem k x e,
        );
      };
    }
    remove_case elem (some pts) e =
        let holds = λ (x : ℕ).
          P.contains-remove pts elem x (found_valid (some pts) e)
          ∙ ap (λ b. not (x == elem) && b) (found_contains (some pts) x e) in
        record {
          holds = λ k x. ground (
            arith,
            in_pts-put P dec d var (P.remove pts elem).0 (remove_rev dec d.rev_pts_map var elem)
                (λ y b. not (y == elem) && b) holds k x,
          );
          flag =
              P.remove_changed pts elem (found_valid (some pts) e)
              ∙ found_contains (some pts) elem e;
          mirrored =
              put-IsMirrored P dec d var (P.remove pts elem).0
                (remove_rev dec d.rev_pts_map var elem) (λ y b. not (y == elem) && b) m
                (P.remove-IsValid pts elem (found_valid (some pts) e)) holds
                (λ x k. ground (arith, in_rev-remove_rev dec d.rev_pts_map var elem x k));
        }

    -- When all stored sets are valid and the reverse map lists exactly the keys whose set has
    -- an element, `remove_pts_elem` takes the element out of the set of its key and changes
    -- nothing else, its flag says whether it was there, and the reverse map and the validity
    -- stay right.
    pub remove_pts_elem-Removes : (elem : ℕ) → Removes elem (remove_pts_elem P dec d var elem)
    unfolding remove_pts_elem
    remove_pts_elem-Removes elem = remove_case elem (HashMap.get dec d.pts_map var) refl

    -- What `clear_pts` is to do.
    pub record Clears (r : BasePtData K Set) : Type 0 where
      pub holds :
          (k : K) (x : ℕ) → in_pts P dec r k x ≡ (not (same dec var k) && in_pts P dec d k x)
      pub mirrored : IsMirrored P dec r

    all-IsListed :
        (pts : Set)
        → HashMap.get dec d.pts_map var ≡ some pts
        → IsListed dec d.rev_pts_map (P.to_list pts)
    unfolding HashSet.contains
    all-IsListed pts e x h absent =
        let there : in_rev dec d.rev_pts_map x var ≡ true =
          m.mirrored x var
          ∙ sym (found_contains (some pts) x e)
          ∙ sym (P.has-to_list pts x (found_valid (some pts) e))
          ∙ h in
        let gone : in_rev dec d.rev_pts_map x var ≡ false =
          ap (λ o. HashSet.contains dec (Option.get_or o []) var) absent in
        absurd (cc)

    clear_case :
        (o : Option Set)
        → HashMap.get dec d.pts_map var ≡ o
        → (r : BasePtData K Set) × (elim o [
          | none ↦ some d
          | some pts ↦
              Option.map
                (λ rev. put P dec d var (P.clear pts) rev)
                (clear_rev_loop dec (P.to_list pts) d.rev_pts_map var)
        ]
            ≡ some r)
          × Clears r
    clear_case none e = (
      d,
      refl,
      record {
        holds = λ k x.
            elim (dec var k)
              as (λ q.
                in_pts P dec d k x
                ≡ (not (elim q [ yes _ ↦ true | no _ ↦ false ]) && in_pts P dec d k x)) [
                  | yes q ↦
                      subst (λ j. in_pts P dec d j x ≡ false) q
                        (sym (found_contains none x e) ∙ P.contains-new x)
                  | no _ ↦ refl
                ];
        mirrored = m;
      },
    )
    clear_case (some pts) e =
        let (rev, done, lists) =
          clear_rev_loop_lem dec (P.to_list pts) d.rev_pts_map var (all-IsListed pts e) in
        (
          put P dec d var (P.clear pts) rev,
          rw done refl,
          record {
            holds = λ k x. ground (
              arith,
              in_pts-put P dec d var (P.clear pts) rev (λ _ _. false) (P.contains-clear pts) k x,
            );
            mirrored =
                put-IsMirrored P dec d var (P.clear pts) rev (λ _ _. false) m (P.clear-IsValid pts)
                  (P.contains-clear pts) (λ x k. emptied pts rev e lists x k);
          },
        )
      where
        emptied :
            (pts : Set) (rev : List (ℕ × List K))
            → HashMap.get dec d.pts_map var ≡ some pts
            → ((x : ℕ) (k : K)
                → in_rev dec rev x k
                  ≡ (not (has (P.to_list pts) x && same dec var k) && in_rev dec d.rev_pts_map x k))
            → (x : ℕ) (k : K)
            → in_rev dec rev x k
              ≡ elim (dec var k) [ yes _ ↦ false | no _ ↦ in_rev dec d.rev_pts_map x k ]
        emptied pts rev e lists x k =
            elim (dec var k)
              as (λ q.
                in_rev dec rev x k
                ≡ elim q [ yes _ ↦ false | no _ ↦ in_rev dec d.rev_pts_map x k ]) [
                  | yes q ↦
                      subst (λ j. in_rev dec rev x j ≡ false) q
                        (ground (
                          arith,
                          lists x var,
                          P.has-to_list pts x (found_valid (some pts) e),
                          m.mirrored x var,
                          found_contains (some pts) x e,
                        ))
                  | no ne ↦ ground (arith, lists x k)
                ]

    -- When all stored sets are valid and the reverse map lists exactly the keys whose set has
    -- an element, `clear_pts` does not panic, empties the set of its key and changes no other,
    -- and the reverse map and the validity stay right.
    pub clear_pts-Clears : (r : BasePtData K Set) × (clear_pts P dec d var ≡ some r) × Clears r
    unfolding clear_pts
    clear_pts-Clears = clear_case (HashMap.get dec d.pts_map var) refl
