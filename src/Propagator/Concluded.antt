-- ===== src/Propagator/Concluded.antt =====
-- What `propagate` is to do, and how the loop over the pointees gives it.
use rupta_fork.Base.{
  ℕ, ◌≡◌, ◌↔◌, inl, inr, refl, sym, ap, subst, ◌∙◌, List, [], ◌∷◌, ◌++◌, Bool, true, false, not,
  ◌&&◌, ◌||◌, some, has, arith, Bool-cases, Option-cases, ℕ_discrete, if◌then◌else◌,
}
use rupta_fork.Base.HashMap
use rupta_fork.Base.HashSet.{same}
use rupta_fork.Petgraph.{DiGraph}
use rupta_fork.ChunkedQueue.{ArrayVec, chunk_cap}
use rupta_fork.PtsSet.{PointsToSet}
use rupta_fork.PtData.DiffPtData.{DiffPtData, entry}
use rupta_fork.PtData.DiffPtData.View.{points_to, in_diff, in_propa, IsStored, IsDisjoint}
use rupta_fork.Pag.{PagNode, PagEdge}
use rupta_fork.Pag.Direct.{PagPath}
use rupta_fork.Propagator.{Propagator, PtrTypes, EdgeFilter, pointees, push_changed}
use rupta_fork.Propagator.Passing.{arrives, Passed}
use rupta_fork.Propagator.Any.{any_iff}

-- The pointees that are read are the elements of the entry.
pub has-pointees :
    (Q : PointsToSet) (m : List (ℕ × Q.Set)) (i x : ℕ)
    → Q.IsValid (entry Q ℕ_discrete m i)
    → has (pointees Q (HashMap.get ℕ_discrete m i)) x ≡ Q.contains (entry Q ℕ_discrete m i) x
has-pointees Q m i x v = elim (Option-cases (HashMap.get ℕ_discrete m i)) [
  | inl missing ↦ rw missing (sym (Q.contains-new x))
  | inr (t, found) ↦ rw found (Q.has-to_list t x (subst Q.IsValid (stored t found) v))
]
  where
    stored : (t : Q.Set) → HashMap.get ℕ_discrete m i ≡ some t → entry Q ℕ_discrete m i ≡ t
    stored t h = rw h refl

abbrev pub deref : {P F Ty : Type 0} → PagPath P F Ty → PtrTypes Ty → P → Ty
deref A T path = T.get_dereferenced_type (A.try_eval_path_type path)

module _ {P F Ty Fp S : Type 0} (dec : Discrete P) (D : DiGraph (PagNode P) PagEdge)
    (V : ArrayVec ℕ chunk_cap) (A : PagPath P F Ty) (T : PtrTypes Ty) (E : EdgeFilter P S)
    (Q : PointsToSet) (s : Propagator P D.Graph V.Vec Fp Q.Set S) (edge src dst : ℕ)
    (src_path dst_path : P) (propa_diff : Bool) where
  -- What is read at the source, and what of it may pass the edge.
  abbrev pub is_sent : ℕ → Bool
  is_sent x =
      in_diff Q ℕ_discrete s.pt_data src x
      || (not propa_diff && in_propa Q ℕ_discrete s.pt_data src x)

  abbrev pub is_passed : ℕ → Bool
  is_passed x =
      is_sent x
      && (T.equivalent_ptr_types (A.try_eval_path_type src_path) (A.try_eval_path_type dst_path)
          && arrives dec D V A T E Q edge dst (deref A T src_path) (deref A T dst_path) s x)

  -- What `propagate` is to do.
  pub record Propagates (t : Propagator P D.Graph V.Vec Fp Q.Set S) : Type 0 where
    pub stored : IsStored Q ℕ_discrete t.pt_data
    pub disjoint : IsDisjoint Q ℕ_discrete s.pt_data → IsDisjoint Q ℕ_discrete t.pt_data
    pub pag : t.pag ≡ s.pag
    pub propa : t.pt_data.propa_pts_map ≡ s.pt_data.propa_pts_map
    pub holds :
        (k x : ℕ)
        → points_to Q ℕ_discrete t.pt_data k x
          ≡ (same ℕ_discrete dst k && is_passed x || points_to Q ℕ_discrete s.pt_data k x)
    pub pushed : Bool
    pub worklist : t.worklist ≡ (if pushed then s.worklist ++ dst ∷ [] else s.worklist)
    pub pushed_iff :
        (pushed ≡ true)
        ↔ ((x : ℕ) × (is_passed x ≡ true) × (points_to Q ℕ_discrete s.pt_data dst x ≡ false))

  -- From the loop over the list `xs` to the whole.
  module _ (t : Propagator P D.Graph V.Vec Fp Q.Set S) (d : Bool) (xs : List ℕ)
      (p : Passed dec D V A T E Q edge dst (deref A T src_path) (deref A T dst_path) s false xs t d)
      (h : (x : ℕ)
        → (has xs x
            && arrives dec D V A T E Q edge dst (deref A T src_path) (deref A T dst_path) s x)
          ≡ is_passed x) where
    pub told :
        (r : Propagator P D.Graph V.Vec Fp Q.Set S)
        → r.pt_data ≡ t.pt_data
        → r.pag ≡ t.pag
        → r.worklist ≡ (if d then s.worklist ++ dst ∷ [] else s.worklist)
        → Propagates r
    told r sets graph list = record {
      stored = subst (IsStored Q ℕ_discrete) (sym sets) p.rest.stored;
      disjoint = λ i. subst (IsDisjoint Q ℕ_discrete) (sym sets) (p.rest.disjoint i);
      pag = graph ∙ p.rest.pag;
      propa = ap (λ (x : DiffPtData ℕ Q.Set). x.propa_pts_map) sets ∙ p.rest.propa;
      holds = λ k x.
          ap (λ e. points_to Q ℕ_discrete e k x) sets
          ∙ p.arrived k x
          ∙ ap (λ b. same ℕ_discrete dst k && b || points_to Q ℕ_discrete s.pt_data k x) (h x);
      pushed = d;
      worklist = list;
      pushed_iff = (
        λ up.
            let (x, m, n) = (any_iff new xs).0 (sym p.changed ∙ up) in
            (x, sym (h x) ∙ lead _ _ _ m n, fresh _ _ n),
        λ (x, passes, missing).
            p.changed
            ∙ (any_iff new xs).1 (x, first _ _ (h x ∙ passes), back _ _ _ (h x ∙ passes) missing),
      );
    }
      where
        new : ℕ → Bool
        new x =
            arrives dec D V A T E Q edge dst (deref A T src_path) (deref A T dst_path) s x
            && not (points_to Q ℕ_discrete s.pt_data dst x)

        lead : (a b c : Bool) → a ≡ true → (b && not c) ≡ true → (a && b) ≡ true
        lead a b c p q = ground arith

        fresh : (b c : Bool) → (b && not c) ≡ true → c ≡ false
        fresh b c q = ground arith

        first : (a b : Bool) → (a && b) ≡ true → a ≡ true
        first a b q = ground arith

        back : (a b c : Bool) → (a && b) ≡ true → c ≡ false → (b && not c) ≡ true
        back a b c p q = ground arith

    pub concluded : Propagates (push_changed dec D V A T E Q t d dst)
    unfolding push_changed
    concluded = elim (Bool-cases d) [
      | inl up ↦
          rw (up, push_changed)
            (told (record t { worklist = t.worklist ++ dst ∷ [] }) refl refl
              (rw up (ap (λ w. w ++ dst ∷ []) p.rest.worklist)))
      | inr down ↦ rw (down, push_changed) (told t refl refl (rw down p.rest.worklist))
    ]
