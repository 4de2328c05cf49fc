-- ===== src/PtData/BasePtData/Mirror.antt =====
-- The reverse map says of an element exactly the keys whose set has it, and so no `unwrap` fails.
use rupta_fork.Base.{
  ℕ, ◌≡◌, ◌≢◌, ◌==◌, inl, inr, refl, sym, ap, subst, ◌∙◌, List, [], ◌∷◌, Bool, true, not, ◌&&◌,
  ◌||◌, none, some, ℕ_discrete, has, arith, Option-cases,
}
use mathlib.Core.Option
use rupta_fork.Base.HashMap
use rupta_fork.Base.HashSet
use rupta_fork.Base.HashSet.{same}
use rupta_fork.CallSite.Assoc.{contains-add_to, add_to}
use rupta_fork.PtData.BasePtData.{add_rev_loop, remove_rev, clear_rev_loop}

module _ {K : Type 0} (dec : Discrete K) where
  -- Whether the reverse map lists the key at the element.
  abbrev pub in_rev : List (ℕ × List K) → ℕ → K → Bool
  in_rev rev x k = HashSet.contains dec (HashMap.get_or_default ℕ_discrete rev x []) k

  in_rev-insert_self :
      (rev : List (ℕ × List K)) (elem : ℕ) (vars : List K) (k : K)
      → in_rev (HashMap.insert ℕ_discrete rev elem vars) elem k ≡ HashSet.contains dec vars k
  in_rev-insert_self rev elem vars k =
      ap (λ o. HashSet.contains dec (Option.get_or o []) k)
        (HashMap.get-insert_self ℕ_discrete rev elem vars)

  in_rev-insert_ne :
      (rev : List (ℕ × List K)) (elem x : ℕ) (vars : List K) (k : K)
      → elem ≢ x
      → in_rev (HashMap.insert ℕ_discrete rev elem vars) x k ≡ in_rev rev x k
  in_rev-insert_ne rev elem x vars k ne =
      ap (λ o. HashSet.contains dec (Option.get_or o []) k)
        (HashMap.get-insert_ne ℕ_discrete rev elem x vars ne)

  -- `vars.remove(&var)` at the set of one element.
  removed_at :
      (rev : List (ℕ × List K)) (var : K) (elem : ℕ) (vars : List K) (x : ℕ) (k : K)
      → HashMap.get ℕ_discrete rev elem ≡ some vars
      → in_rev (HashMap.insert ℕ_discrete rev elem (HashSet.remove dec vars var)) x k
        ≡ (not (x == elem && same dec var k) && in_rev rev x k)
  removed_at rev var elem vars x k e = elim (ℕ_discrete elem x) [
    | yes q ↦
        subst
          (λ y.
            in_rev (HashMap.insert ℕ_discrete rev elem (HashSet.remove dec vars var)) y k
            ≡ (not (y == elem && same dec var k) && in_rev rev y k))
          q
          (ground (
            arith,
            in_rev-insert_self rev elem (HashSet.remove dec vars var) k,
            HashSet.contains-remove dec vars var k,
            ap (λ o. HashSet.contains dec (Option.get_or o []) k) e,
          ))
    | no ne ↦ ground (arith, in_rev-insert_ne rev elem x (HashSet.remove dec vars var) k ne)
  ]

  pub in_rev-remove_rev :
      (rev : List (ℕ × List K)) (var : K) (elem x : ℕ) (k : K)
      → in_rev (remove_rev dec rev var elem) x k
        ≡ (not (x == elem && same dec var k) && in_rev rev x k)
  unfolding remove_rev HashSet.contains
  in_rev-remove_rev rev var elem x k = elim (Option-cases (HashMap.get ℕ_discrete rev elem)) [
    | inl absent ↦ rw (absent, remove_rev) (absent_case absent)
    | inr (vars, e) ↦ rw (e, remove_rev) (removed_at rev var elem vars x k e)
  ]
    where
      absent_case :
          HashMap.get ℕ_discrete rev elem ≡ none
          → in_rev rev x k ≡ (not (x == elem && same dec var k) && in_rev rev x k)
      absent_case e = elim (ℕ_discrete elem x) [
        | yes q ↦
            subst (λ y. in_rev rev y k ≡ (not (y == elem && same dec var k) && in_rev rev y k)) q
              (ground (arith, ap (λ o. HashSet.contains dec (Option.get_or o []) k) e))
        | no ne ↦ ground arith
      ]

  pub in_rev-add_rev_loop :
      (xs : List ℕ) (rev : List (ℕ × List K)) (var : K) (x : ℕ) (k : K)
      → in_rev (add_rev_loop dec xs rev var) x k ≡ (has xs x && same dec var k || in_rev rev x k)
  unfolding add_rev_loop
  in_rev-add_rev_loop [] rev var x k = refl
  in_rev-add_rev_loop (elem ∷ xs) rev var x k = ground (
    arith,
    in_rev-add_rev_loop xs (add_to ℕ_discrete dec rev elem var) var x k,
    contains-add_to ℕ_discrete dec rev elem x var k,
  )

  -- Each element of the list has an entry.
  abbrev pub IsListed : List (ℕ × List K) → List ℕ → Type 0
  IsListed rev xs = (x : ℕ) → has xs x ≡ true → HashMap.get ℕ_discrete rev x ≢ none

  still-IsListed :
      (rev : List (ℕ × List K)) (elem : ℕ) (vars : List K) (xs : List ℕ)
      → IsListed rev xs
      → IsListed (HashMap.insert ℕ_discrete rev elem vars) xs
  still-IsListed rev elem vars xs listed x h absent = elim (ℕ_discrete elem x) [
    | yes q ↦
        let there = HashMap.get-insert_self ℕ_discrete rev elem vars in
        let gone : HashMap.get ℕ_discrete (HashMap.insert ℕ_discrete rev elem vars) elem ≡ none =
          subst (λ y. HashMap.get ℕ_discrete (HashMap.insert ℕ_discrete rev elem vars) y ≡ none)
            (sym q) absent in
        absurd (cc)
    | no ne ↦ listed x h (sym (HashMap.get-insert_ne ℕ_discrete rev elem x vars ne) ∙ absent)
  ]

  pub clear_rev_loop_lem :
      (xs : List ℕ) (rev : List (ℕ × List K)) (var : K)
      → IsListed rev xs
      → (r : List (ℕ × List K)) × (clear_rev_loop dec xs rev var ≡ some r)
        × ((x : ℕ) (k : K) → in_rev r x k ≡ (not (has xs x && same dec var k) && in_rev rev x k))
  unfolding clear_rev_loop
  clear_rev_loop_lem [] rev var listed = (rev, refl, λ x k. refl)
  clear_rev_loop_lem (elem ∷ xs) rev var listed =
      elim (Option-cases (HashMap.get ℕ_discrete rev elem)) [
        | inl absent ↦ absurd (listed elem (ground arith) absent)
        | inr (vars, e) ↦
            let next_rev = HashMap.insert ℕ_discrete rev elem (HashSet.remove dec vars var) in
            let (r, done, holds) = clear_rev_loop_lem xs next_rev var (
              still-IsListed rev elem (HashSet.remove dec vars var) xs
                (λ x h. listed x (ground arith))) in
            (
              r,
              rw (e, clear_rev_loop) done,
              λ x k. ground (arith, holds x k, removed_at rev var elem vars x k e),
            )
      ]
