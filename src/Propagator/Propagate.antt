-- ===== src/Propagator/Propagate.antt =====
-- `propagate`: one edge.
use rupta_fork.Base.{
  ℕ, ◌^◌, ◌<◌, ◌≡◌, inl, inr, refl, sym, ap, ◌∙◌, List, [], ◌++◌, Bool, true, false, not, ◌&&◌,
  ◌||◌, Option, none, some, has, arith, Bool-cases, ℕ_discrete, has-append,
}
use mathlib.Core.Bool.{false≢true}
use mathlib.Core.Option
use rupta_fork.Base.HashMap
use rupta_fork.Base.HashSet.{same}
use rupta_fork.Petgraph.{DiGraph}
use rupta_fork.ChunkedQueue.{ArrayVec, chunk_cap}
use rupta_fork.PtsSet.{PointsToSet}
use rupta_fork.PtData.DiffPtData
use rupta_fork.PtData.DiffPtData.{DiffPtData, entry}
use rupta_fork.PtData.DiffPtData.View.{points_to, in_diff, in_propa, IsStored}
use rupta_fork.Pag.{PagNode, PagEdge}
use rupta_fork.Pag.Ops.{node_path}
use rupta_fork.Pag.Direct.{PagPath}
use rupta_fork.Propagator.{
  Propagator, PtrTypes, EdgeFilter, node_path_and_ty, pass_all, pointees, is_there, push_changed,
  propagate,
}
use rupta_fork.Propagator.Passing.{arrives, Passed, nothing-Passed, then-Passed, pass_all-Passed}
use rupta_fork.Propagator.Concluded.{deref, has-pointees, is_passed, Propagates, told, concluded}

module _ {P F Ty Fp S : Type 0} (dec : Discrete P) (D : DiGraph (PagNode P) PagEdge)
    (V : ArrayVec ℕ chunk_cap) (A : PagPath P F Ty) (T : PtrTypes Ty) (E : EdgeFilter P S)
    (Q : PointsToSet) (s : Propagator P D.Graph V.Vec Fp Q.Set S) (edge src dst : ℕ)
    (src_path dst_path : P) (propa_diff : Bool) where
  module _ (v : IsStored Q ℕ_discrete s.pt_data)
      (ends : D.edge_endpoints s.pag.graph edge ≡ some (src, dst))
      (src_node : node_path dec D V s.pag src ≡ some src_path)
      (dst_node : node_path dec D V s.pag dst ≡ some dst_path)
      (known : (x : ℕ)
        → points_to Q ℕ_discrete s.pt_data src x ≡ true
        → (x < 2 ^ 64)
          × (path : P) × (node_path dec D V s.pag x ≡ some path)
          × (filtered : Bool) × (E.stack_filter_pred s.stack_filter edge path
              ≡ some filtered)) where
    abbrev is_read : Bool
    is_read =
        is_there Q (DiffPtData.get_propa_pts Q ℕ_discrete s.pt_data src)
        || is_there Q (DiffPtData.get_diff_pts Q ℕ_discrete s.pt_data src)

    abbrev equivalent : Bool
    equivalent =
        T.equivalent_ptr_types (A.try_eval_path_type src_path) (A.try_eval_path_type dst_path)

    abbrev diff_list : List ℕ
    diff_list = pointees Q (HashMap.get ℕ_discrete s.pt_data.diff_pts_map src)

    has-diff_list : (x : ℕ) → has diff_list x ≡ in_diff Q ℕ_discrete s.pt_data src x
    has-diff_list x = has-pointees Q s.pt_data.diff_pts_map src x (v.diff_valid src)

    has-propa_list :
        (x : ℕ)
        → has (pointees Q (HashMap.get ℕ_discrete s.pt_data.propa_pts_map src)) x
          ≡ in_propa Q ℕ_discrete s.pt_data src x
    has-propa_list x = has-pointees Q s.pt_data.propa_pts_map src x (v.propa_valid src)

    -- Nothing is written where nothing passes.
    idle :
        ((x : ℕ) → is_passed dec D V A T E Q s edge src dst src_path dst_path propa_diff x ≡ false)
        → Propagates dec D V A T E Q s edge src dst src_path dst_path propa_diff s
    idle h =
        told dec D V A T E Q s edge src dst src_path dst_path propa_diff s false []
          (nothing-Passed dec D V A T E Q edge dst (deref A T src_path) (deref A T dst_path) s false
            v)
          (λ x. sym (h x)) s refl refl refl

    unread :
        is_read ≡ false
        → (x : ℕ) → is_passed dec D V A T E Q s edge src dst src_path dst_path propa_diff x ≡ false
    unfolding DiffPtData.get_propa_pts DiffPtData.get_diff_pts
    unread h x =
        nowhere _ _ propa_diff _
          (sym (has-diff_list x)
            ∙ empty (HashMap.get ℕ_discrete s.pt_data.diff_pts_map src) (right _ _ h))
          (sym (has-propa_list x)
            ∙ empty (HashMap.get ℕ_discrete s.pt_data.propa_pts_map src) (left _ _ h))
      where
        empty : (o : Option Q.Set) → is_there Q o ≡ false → has (pointees Q o) x ≡ false
        empty none h = refl
        empty (some t) h = absurd (false≢true (sym h))

        left : (a b : Bool) → (a || b) ≡ false → a ≡ false
        left a b h = ground arith

        right : (a b : Bool) → (a || b) ≡ false → b ≡ false
        right a b h = ground arith

        nowhere : (a b p c : Bool) → a ≡ false → b ≡ false → ((a || (not p && b)) && c) ≡ false
        nowhere a b p c h k = ground arith

    first_loop :
        (t : Propagator P D.Graph V.Vec Fp Q.Set S) × (d : Bool) × (pass_all dec D V A T E Q s false
            edge dst
            (deref A T src_path)
            (deref A T dst_path)
            diff_list
          ≡ some (t, d))
        × Passed dec D V A T E Q edge dst
            (deref A T src_path)
            (deref A T dst_path)
            s
            false
            diff_list
            t
            d
    first_loop =
        pass_all-Passed dec D V A T E Q edge dst (deref A T src_path) (deref A T dst_path) s false
          diff_list v (λ x m. known x (ground (arith, sym (has-diff_list x) ∙ m)))

    -- The loop over the propagated pointees, which runs where the flag is down.
    second_loop :
        (t : Propagator P D.Graph V.Vec Fp Q.Set S) (d : Bool)
        → propa_diff ≡ false
        → Passed dec D V A T E Q edge dst
            (deref A T src_path)
            (deref A T dst_path)
            s
            false
            diff_list
            t
            d
        → (r : Propagator P D.Graph V.Vec Fp Q.Set S) × (e : Bool) × (pass_all dec D V A T E Q t d
              edge dst
              (deref A T src_path)
              (deref A T dst_path)
              (pointees Q (HashMap.get ℕ_discrete t.pt_data.propa_pts_map src))
            ≡ some (r, e))
          × Passed dec D V A T E Q edge dst
              (deref A T src_path)
              (deref A T dst_path)
              t
              d
              (pointees Q (HashMap.get ℕ_discrete t.pt_data.propa_pts_map src))
              r
              e
    second_loop t d both p =
        pass_all-Passed dec D V A T E Q edge dst (deref A T src_path) (deref A T dst_path) t d
          (pointees Q (HashMap.get ℕ_discrete t.pt_data.propa_pts_map src)) p.rest.stored
          (λ x m.
            let there =
              sym (has-propa_list x)
              ∙ ap (λ e. has (pointees Q (HashMap.get ℕ_discrete e src)) x) (sym p.rest.propa)
              ∙ m in
            let (small, path, found, b, answer) = known x (ground (arith, there)) in
            (
              small,
              path,
              ap (λ g. node_path dec D V g x) p.rest.pag ∙ found,
              b,
              p.rest.filter edge path ∙ answer,
            ))

    only_diff :
        propa_diff ≡ true
        → equivalent ≡ true
        → (x : ℕ)
        → (has diff_list x
            && arrives dec D V A T E Q edge dst (deref A T src_path) (deref A T dst_path) s x)
          ≡ is_passed dec D V A T E Q s edge src dst src_path dst_path propa_diff x
    only_diff flag same x = join _ _ _ _ _ _ (has-diff_list x) flag same
      where
        join :
            (h i j p q a : Bool)
            → h ≡ i
            → p ≡ true
            → q ≡ true
            → (h && a) ≡ ((i || (not p && j)) && (q && a))
        join h i j p q a u f g = ground arith

    all_read :
        (t : Propagator P D.Graph V.Vec Fp Q.Set S)
        → t.pt_data.propa_pts_map ≡ s.pt_data.propa_pts_map
        → propa_diff ≡ false
        → equivalent ≡ true
        → (x : ℕ)
        → (has (diff_list ++ pointees Q (HashMap.get ℕ_discrete t.pt_data.propa_pts_map src)) x
            && arrives dec D V A T E Q edge dst (deref A T src_path) (deref A T dst_path) s x)
          ≡ is_passed dec D V A T E Q s edge src dst src_path dst_path propa_diff x
    all_read t kept flag same x =
        join _ _ _ _ _ _ _ _
          (has-append diff_list (pointees Q (HashMap.get ℕ_discrete t.pt_data.propa_pts_map src)) x)
          (has-diff_list x)
          (ap (λ e. has (pointees Q (HashMap.get ℕ_discrete e src)) x) kept ∙ has-propa_list x) flag
          same
      where
        join :
            (k h i l j p q a : Bool)
            → k ≡ (h || l)
            → h ≡ i
            → l ≡ j
            → p ≡ false
            → q ≡ true
            → (k && a) ≡ ((i || (not p && j)) && (q && a))
        join k h i l j p q a r u w f g = ground arith

    both_run :
        (t r : Propagator P D.Graph V.Vec Fp Q.Set S) (d e : Bool)
        → propa_diff ≡ false
        → is_read ≡ true
        → equivalent ≡ true
        → pass_all dec D V A T E Q s false edge dst
            (deref A T src_path)
            (deref A T dst_path)
            diff_list
          ≡ some (t, d)
        → pass_all dec D V A T E Q t d edge dst
            (deref A T src_path)
            (deref A T dst_path)
            (pointees Q (HashMap.get ℕ_discrete t.pt_data.propa_pts_map src))
          ≡ some (r, e)
        → propagate dec D V A T E Q s edge propa_diff ≡ some (push_changed dec D V A T E Q r e dst)
    unfolding propagate Option.bind node_path_and_ty DiffPtData.get_propa_pts
        DiffPtData.get_diff_pts
    both_run t r d e flag set alike first second =
        rw (ends, propagate)
          (rw set (
            rw (src_node, node_path_and_ty)
              (rw (dst_node, node_path_and_ty) (rw alike (rw first (rw flag (rw second refl)))))))

    -- For an edge between two nodes of the graph, with valid points-to data at whose source
    -- every pointee is a usize and has a node and the stack filter's test of its path for
    -- this edge does not panic, `propagate` does not panic. The destination gains exactly
    -- the pointees of the source, those already propagated only where the flag is down,
    -- that pass: the pointer types are equivalent and neither the type filter nor the stack
    -- filter stops the pointee. No other points-to set changes, the graph and what has been
    -- propagated stay as they were, and the destination is put on the worklist exactly when
    -- it gained one.
    pub propagate-Propagates :
        (t : Propagator P D.Graph V.Vec Fp Q.Set S) × (propagate dec D V A T E Q s edge propa_diff
          ≡ some t)
        × Propagates dec D V A T E Q s edge src dst src_path dst_path propa_diff t
    unfolding propagate Option.bind node_path_and_ty DiffPtData.get_propa_pts
        DiffPtData.get_diff_pts
    propagate-Propagates = elim (Bool-cases is_read) [
      | inr unset ↦ (s, rw (ends, propagate) (rw unset refl), idle (unread unset))
      | inl set ↦ elim (Bool-cases equivalent) [
        | inr other ↦ (
          s,
          rw (ends, propagate)
              (rw set (
                rw (src_node, node_path_and_ty) (rw (dst_node, node_path_and_ty) (rw other refl)))),
          idle (λ x. ground (arith, other)),
        )
        | inl alike ↦
            let (t, d, first, p) = first_loop in
            elim (Bool-cases propa_diff) [
              | inl flag ↦ (
                push_changed dec D V A T E Q t d dst,
                rw (ends, propagate)
                    (rw set (
                      rw (src_node, node_path_and_ty)
                        (rw (dst_node, node_path_and_ty) (rw alike (rw first (rw flag refl)))))),
                concluded dec D V A T E Q s edge src dst src_path dst_path propa_diff t d diff_list
                    p (only_diff flag alike),
              )
              | inr flag ↦
                  let (r, e, second, q) = second_loop t d flag p in
                  (
                    push_changed dec D V A T E Q r e dst,
                    both_run t r d e flag set alike first second,
                    concluded dec D V A T E Q s edge src dst src_path dst_path propa_diff r e
                        (diff_list
                          ++ pointees Q (HashMap.get ℕ_discrete t.pt_data.propa_pts_map src))
                        (then-Passed dec D V A T E Q edge dst (deref A T src_path)
                          (deref A T dst_path) s t r false d e diff_list
                          (pointees Q (HashMap.get ℕ_discrete t.pt_data.propa_pts_map src)) p q)
                        (all_read t p.rest.propa flag alike),
                  )
            ]
      ]
    ]
