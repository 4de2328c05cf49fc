-- ===== src/Propagator/Passing.antt =====
-- A loop over pointees: which of them arrive at the edge's destination.
use rupta_fork.Base.{
  ℕ, ◌^◌, ◌<◌, ◌≡◌, inl, inr, refl, sym, ap, ap₂, ◌∙◌, List, [], ◌∷◌, Bool, true, false, not, ◌&&◌,
  ◌||◌, Option, none, some, has, arith, Bool-cases, Option-cases, ℕ_discrete, ◌++◌, has-append,
}
use mathlib.Core.Option
use rupta_fork.Base.HashSet.{same, same_refl}
use rupta_fork.Petgraph.{DiGraph}
use rupta_fork.ChunkedQueue.{ArrayVec, chunk_cap}
use rupta_fork.PtsSet.{PointsToSet}
use rupta_fork.PtData.DiffPtData
use rupta_fork.PtData.DiffPtData.{DiffPtData}
use rupta_fork.PtData.DiffPtData.View.{points_to, IsStored, IsDisjoint}
use rupta_fork.PtData.DiffPtData.Edits.{add_pts-Adds}
use rupta_fork.Pag.{PagNode, PagEdge}
use rupta_fork.Pag.Ops.{node_path}
use rupta_fork.Pag.Direct.{PagPath}
use rupta_fork.Propagator.Any.{
  any, any-ext, any-append, any-none, one_stopped, one_passed, flag_stopped, flag_passed,
}
use rupta_fork.Propagator.{
  Propagator, PtrTypes, EdgeFilter, type_filter_pred, node_path_and_ty, add_pts, pass_pointee,
  pass_all,
}

-- An answer of the stack filter that lets the pointee pass.
abbrev pub lets_pass : Option Bool → Bool
lets_pass none = false
lets_pass (some filtered) = not filtered

propa_kept :
    (Q : PointsToSet) (d : DiffPtData ℕ Q.Set) (k x : ℕ)
    → (DiffPtData.add_pts Q ℕ_discrete d k x).0.propa_pts_map ≡ d.propa_pts_map
unfolding DiffPtData.add_pts
propa_kept Q d k x = elim (Bool-cases (DiffPtData.is_propagated Q ℕ_discrete d k x)) [
  | inl old ↦ rw (old, DiffPtData.add_pts) refl
  | inr fresh ↦ rw (fresh, DiffPtData.add_pts) refl
]

module _ {P F Ty Fp S : Type 0} (dec : Discrete P) (D : DiGraph (PagNode P) PagEdge)
    (V : ArrayVec ℕ chunk_cap) (A : PagPath P F Ty) (T : PtrTypes Ty) (E : EdgeFilter P S)
    (Q : PointsToSet) (edge dst : ℕ) (src_deref dst_deref : Ty) where
  -- The pointee passes both filters of the edge.
  unfoldable pub arrives : Propagator P D.Graph V.Vec Fp Q.Set S → ℕ → Bool
  arrives s x = elim (node_path dec D V s.pag x) [
    | none ↦ false
    | some path ↦
        not (type_filter_pred T (A.try_eval_path_type path) src_deref dst_deref)
        && lets_pass (E.stack_filter_pred s.stack_filter edge path)
  ]

  abbrev pub holds : Propagator P D.Graph V.Vec Fp Q.Set S → ℕ → ℕ → Bool
  holds s k x = points_to Q ℕ_discrete s.pt_data k x

  -- Only the points-to set of `dst` and what is collected differ.
  pub record Kept (s t : Propagator P D.Graph V.Vec Fp Q.Set S) : Type 0 where
    pub pag : t.pag ≡ s.pag
    pub worklist : t.worklist ≡ s.worklist
    pub filter :
        (e : ℕ) (p : P)
        → E.stack_filter_pred t.stack_filter e p ≡ E.stack_filter_pred s.stack_filter e p
    pub propa : t.pt_data.propa_pts_map ≡ s.pt_data.propa_pts_map
    pub stored : IsStored Q ℕ_discrete t.pt_data
    pub disjoint : IsDisjoint Q ℕ_discrete s.pt_data → IsDisjoint Q ℕ_discrete t.pt_data

  arrives-same :
      (s t : Propagator P D.Graph V.Vec Fp Q.Set S) (x : ℕ) → Kept s t → arrives t x ≡ arrives s x
  unfolding arrives
  arrives-same s t x k = elim (Option-cases (node_path dec D V s.pag x)) [
    | inl missing ↦ rw (there none missing, arrives) (rw (missing, arrives) refl)
    | inr (path, found) ↦
        rw (there (some path) found, arrives)
          (rw (found, arrives)
            (ap
              (λ b.
                not (type_filter_pred T (A.try_eval_path_type path) src_deref dst_deref)
                && lets_pass b)
              (k.filter edge path)))
  ]
    where
      there : (o : Option P) → node_path dec D V s.pag x ≡ o → node_path dec D V t.pag x ≡ o
      there o h = ap (λ g. node_path dec D V g x) k.pag ∙ h

  arrives-found :
      (s : Propagator P D.Graph V.Vec Fp Q.Set S) (x : ℕ) (path : P)
      → node_path dec D V s.pag x ≡ some path
      → arrives s x ≡ (
          not (type_filter_pred T (A.try_eval_path_type path) src_deref dst_deref)
          && lets_pass (E.stack_filter_pred s.stack_filter edge path))
  unfolding arrives
  arrives-found s x path found = rw (found, arrives) refl

  pub record Passed (s : Propagator P D.Graph V.Vec Fp Q.Set S) (c : Bool) (xs : List ℕ)
      (t : Propagator P D.Graph V.Vec Fp Q.Set S) (d : Bool) : Type 0 where
    pub rest : Kept s t
    pub arrived :
        (k x : ℕ)
        → holds t k x ≡ (same ℕ_discrete dst k && (has xs x && arrives s x) || holds s k x)
    pub changed : d ≡ (c || any (λ x. arrives s x && not (holds s dst x)) xs)

  module _ (s : Propagator P D.Graph V.Vec Fp Q.Set S) (v : IsStored Q ℕ_discrete s.pt_data)
      (c : Bool) (x : ℕ) (path : P) (found : node_path dec D V s.pag x ≡ some path) where
    stays :
        (t : Propagator P D.Graph V.Vec Fp Q.Set S)
        → Kept s t
        → t.pt_data ≡ s.pt_data
        → arrives s x ≡ false
        → Passed s c (x ∷ []) t c
    stays t k same_data no_way = record {
      rest = k;
      arrived = λ j y.
          ap (λ d. points_to Q ℕ_discrete d j y) same_data
          ∙ one_stopped (arrives s) x y (same ℕ_discrete dst j) (holds s j y) no_way;
      changed = flag_stopped c (arrives s x) (not (holds s dst x)) no_way;
    }

    pub pass_pointee-Passed :
        x < 2 ^ 64
        → (filtered : Bool) → E.stack_filter_pred s.stack_filter edge path ≡ some filtered
        → (t : Propagator P D.Graph V.Vec Fp Q.Set S) × (d : Bool) × (pass_pointee dec D V A T E Q s
              c edge dst src_deref dst_deref x
            ≡ some (t, d))
          × Passed s c (x ∷ []) t d
    unfolding pass_pointee node_path_and_ty add_pts Option.bind
    pass_pointee-Passed small b answer =
        elim (Bool-cases (type_filter_pred T (A.try_eval_path_type path) src_deref dst_deref)) [
          | inl typed ↦ (
            s,
            c,
            rw (found, pass_pointee, node_path_and_ty) (rw typed refl),
            stays s
                (record {
                  pag = refl;
                  worklist = refl;
                  filter = λ e p. refl;
                  propa = refl;
                  stored = v;
                  disjoint = λ h. h;
                })
                refl
                (arrives-found s x path found
                  ∙ ap (λ b. not b && lets_pass (E.stack_filter_pred s.stack_filter edge path))
                      typed),
          )
          | inr passed ↦ elim (Bool-cases b) [
            | inl up ↦
                let filtered : E.stack_filter_pred s.stack_filter edge path ≡ some true =
                  answer ∙ ap some up in
                (
                  record s { stack_filter = E.collect_filtered_pts s.stack_filter edge x },
                  c,
                  rw (found, pass_pointee, node_path_and_ty) (rw passed (rw filtered refl)),
                  stays (record s { stack_filter = E.collect_filtered_pts s.stack_filter edge x })
                      (record {
                        pag = refl;
                        worklist = refl;
                        filter = λ e p. E.stack_filter_pred-collect s.stack_filter edge x e p;
                        propa = refl;
                        stored = v;
                        disjoint = λ h. h;
                      })
                      refl (arrives-found s x path found ∙ stopped _ filtered),
                )
            | inr down ↦
                let free : E.stack_filter_pred s.stack_filter edge path ≡ some false =
                  answer ∙ ap some down in
                let way = arrives-found s x path found ∙ free_way _ _ passed free in
                let a = add_pts-Adds Q ℕ_discrete s.pt_data v dst x small in
                (
                  (add_pts dec D V A T E Q s dst x).0,
                  c || (add_pts dec D V A T E Q s dst x).1,
                  rw (found, pass_pointee, node_path_and_ty) (rw passed (rw free refl)),
                  record {
                    rest = record {
                      pag = refl;
                      worklist = refl;
                      filter = λ e p. refl;
                      propa = propa_kept Q s.pt_data dst x;
                      stored = a.stored;
                      disjoint = a.disjoint;
                    };
                    arrived = λ k y.
                        a.holds k y
                        ∙ one_passed (arrives s) x y (same ℕ_discrete dst k) (holds s k y) way;
                    changed =
                        ap (λ b. c || b) a.flag
                        ∙ flag_passed c (arrives s x) (not (holds s dst x)) way;
                  },
                )
          ]
        ]
      where
        stopped : (a : Bool) {o : Option Bool} → o ≡ some true → (not a && lets_pass o) ≡ false
        stopped a h = ap (λ o. not a && lets_pass o) h ∙ never (not a)
          where
            never : (b : Bool) → (b && false) ≡ false
            never b = ground arith

        free_way :
            (a : Bool) (o : Option Bool)
            → a ≡ false
            → o ≡ some false
            → (not a && lets_pass o) ≡ true
        free_way a o p q = ap₂ (λ b r. not b && lets_pass r) p q

  pub nothing-Passed :
      (s : Propagator P D.Graph V.Vec Fp Q.Set S) (c : Bool)
      → IsStored Q ℕ_discrete s.pt_data
      → Passed s c [] s c
  nothing-Passed s c v = record {
    rest = record {
      pag = refl;
      worklist = refl;
      filter = λ e p. refl;
      propa = refl;
      stored = v;
      disjoint = λ h. h;
    };
    arrived = λ k x. ground arith;
    changed = ground arith;
  }

  pub then-Passed :
      (s t r : Propagator P D.Graph V.Vec Fp Q.Set S) (c d e : Bool) (xs ys : List ℕ)
      → Passed s c xs t d
      → Passed t d ys r e
      → Passed s c (xs ++ ys) r e
  then-Passed s t r c d e xs ys f g = record {
    rest = record {
      pag = g.rest.pag ∙ f.rest.pag;
      worklist = g.rest.worklist ∙ f.rest.worklist;
      filter = λ i p. g.rest.filter i p ∙ f.rest.filter i p;
      propa = g.rest.propa ∙ f.rest.propa;
      stored = g.rest.stored;
      disjoint = λ h. g.rest.disjoint (f.rest.disjoint h);
    };
    arrived = λ k x.
        both (same ℕ_discrete dst k) (has xs x) (has ys x) (has (xs ++ ys) x) (arrives s x)
          (arrives t x) (holds s k x) (holds t k x) (holds r k x) (has-append xs ys x)
          (arrives-same s t x f.rest) (f.arrived k x) (g.arrived k x);
    changed =
        g.changed
        ∙ ap (λ b. b || any (λ x. arrives t x && not (holds t dst x)) ys) f.changed
        ∙ flags c (any new xs) _ (any new ys) later
        ∙ ap (λ b. c || b) (sym (any-append new xs ys));
  }
    where
      new : ℕ → Bool
      new x = arrives s x && not (holds s dst x)

      both :
          (w hx hy hxy a a' hs ht hr : Bool)
          → hxy ≡ (hx || hy)
          → a' ≡ a
          → ht ≡ (w && (hx && a) || hs)
          → hr ≡ (w && (hy && a') || ht)
          → hr ≡ (w && (hxy && a) || hs)
      both w hx hy hxy a a' hs ht hr p q u v = ground arith

      flags : (c a b b' : Bool) → (a ≡ false → b ≡ b') → ((c || a) || b) ≡ (c || (a || b'))
      flags true a b b' h = refl
      flags false true b b' h = refl
      flags false false b b' h = h refl

      known :
          (a b h : Bool)
          → (a ≡ true → (b && not h) ≡ false)
          → (b && not ((a && b) || h)) ≡ (b && not h)
      known true b h k = ground (arith, k refl)
      known false b h k = refl

      later : any new xs ≡ false → any (λ x. arrives t x && not (holds t dst x)) ys ≡ any new ys
      later none_new =
          any-ext (λ x. arrives t x && not (holds t dst x)) new ys
            (λ x.
              ap (λ b. b && not (holds t dst x)) (arrives-same s t x f.rest)
              ∙ ap (λ b. arrives s x && not b)
                  (f.arrived dst x
                    ∙ ap (λ b. b && (has xs x && arrives s x) || holds s dst x)
                        (same_refl ℕ_discrete dst))
              ∙ known (has xs x) (arrives s x) (holds s dst x) (any-none new xs x none_new))

  -- Pointees that have their nodes and are a `usize`.
  pub pass_all-Passed :
      (s : Propagator P D.Graph V.Vec Fp Q.Set S) (c : Bool) (xs : List ℕ)
      → IsStored Q ℕ_discrete s.pt_data
      → ((x : ℕ)
          → has xs x ≡ true
          → (x < 2 ^ 64)
            × (path : P) × (node_path dec D V s.pag x ≡ some path)
            × (filtered : Bool) × (E.stack_filter_pred s.stack_filter edge path ≡ some filtered))
      → (t : Propagator P D.Graph V.Vec Fp Q.Set S) × (d : Bool) × (pass_all dec D V A T E Q s c
            edge dst src_deref dst_deref xs
          ≡ some (t, d))
        × Passed s c xs t d
  unfolding pass_all Option.bind
  pass_all-Passed s c [] v known = (s, c, refl, nothing-Passed s c v)
  pass_all-Passed s c (x ∷ xs) v known =
      let (small, path, found, b, answer) = known x (ground arith) in
      let (t, d, first, f) = pass_pointee-Passed s v c x path found small b answer in
      let (r, e, run, g) = pass_all-Passed t d xs f.rest.stored (λ y m.
        let (small, p, q, b, answer) = known y (ground (arith, m)) in
        (
          small,
          p,
          ap (λ k. node_path dec D V k y) f.rest.pag ∙ q,
          b,
          f.rest.filter edge p ∙ answer,
        )) in
      (r, e, rw (first, pass_all) run, then-Passed s t r c d e (x ∷ []) xs f g)
