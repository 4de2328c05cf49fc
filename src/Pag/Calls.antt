-- ===== src/Pag/Calls.antt =====
-- A call in the pointer assignment graph: the edges of its arguments and of its result.
use rupta_fork.Base.{
  ℕ, suc, ◌+◌, ◌≡◌, inl, inr, refl, ap, ◌∙◌, List, [], ◌∷◌, ◌++◌, Option, some, length,
  if◌then◌else◌, has, Bool-cases,
}
use mathlib.Core.Option
use rupta_fork.Petgraph.{DiGraph}
use rupta_fork.ChunkedQueue.{ArrayVec, chunk_cap}
use rupta_fork.MirPath.{ProjectionElems}
use rupta_fork.CallSite.{CallSite}
use rupta_fork.Pag.{Pag, PagNode, PagEdge, direct_edge}
use rupta_fork.Pag.Ops.{has_edge, add_edge}
use rupta_fork.Pag.Valid.{IsValid}
use rupta_fork.Pag.Added.{add_edge-AddsEdge}
use rupta_fork.Pag.Direct.{
  PagPath, add_new_direct_edge, add_projected, add_new_direct_edges, add_args,
  add_inter_procedural_edges,
}
use rupta_fork.Pag.Connects.{
  Connects, nothing-Connects, one-Connects, same_range, next_range, then-Connects, behind-Connects,
}

-- The pairs of paths that a call is to connect.
module _ {P F Ty : Type 0} (A : PagPath P F Ty) where
  abbrev pub field_pairs : P → P → List (ProjectionElems × Ty) → List (P × P)
  field_pairs src dst [] = []
  field_pairs src dst ((proj, _) ∷ projs) =
      (A.append_projection src proj, A.append_projection dst proj) ∷ field_pairs src dst projs

  -- The two paths themselves if they are pointers, else their fields that are.
  abbrev pub pointer_pairs : P → P → Ty → List (P × P)
  pointer_pairs src dst ty =
      if A.is_any_ptr ty
      then (src, dst) ∷ []
      else field_pairs src dst (A.get_pointer_projections ty)

  abbrev pub arg_pairs : F → ℕ → List P → List (P × P)
  arg_pairs callee i [] = []
  arg_pairs callee i (arg ∷ args) =
      pointer_pairs arg (A.new_parameter callee (i + 1)) (A.try_eval_path_type arg)
      ++ arg_pairs callee (i + 1) args

  abbrev pub call_pairs : {Location : Type 0} → CallSite F Location P → F → List (P × P)
  call_pairs callsite callee =
      arg_pairs callee 0 callsite.args
      ++ pointer_pairs (A.new_return_value callee) callsite.destination
          (A.try_eval_path_type callsite.destination)

module _ {P F Ty Fp : Type 0} (dec : Discrete P) (D : DiGraph (PagNode P) PagEdge)
    (V : ArrayVec ℕ chunk_cap) (A : PagPath P F Ty) where
  -- The run does not panic, and connects the pairs.
  abbrev pub Connected :
      Pag P D.Graph V.Vec Fp
      → List ℕ
      → List (P × P)
      → Option (List ℕ × Pag P D.Graph V.Vec Fp)
      → Type 0
  Connected g added pairs run =
      (r : Pag P D.Graph V.Vec Fp) × (all : List ℕ) × (run ≡ some (all, r))
      × Connects dec D V pairs g added r all

  add_new_direct_edge-Connected :
      (g : Pag P D.Graph V.Vec Fp) (added : List ℕ) (src dst : P)
      → IsValid dec D V g
      → Connected g added ((src, dst) ∷ []) (add_new_direct_edge dec D V A g added src dst)
  unfolding add_new_direct_edge add_edge
  add_new_direct_edge-Connected g added src dst v =
      let (r, run, a) = add_edge-AddsEdge dec D V g v src dst direct_edge in
      elim (Bool-cases (has_edge dec D V g src dst direct_edge)) [
        | inl there ↦ (
          r,
          added,
          rw (run, add_new_direct_edge) (rw there refl),
          one-Connects dec D V src dst g r added added a (λ e.
              same_range (length (D.ends g.graph)) (length (D.ends r.graph)) e (has added e) (
                a.grown
                ∙ ap (λ t. if t then length (D.ends g.graph) else suc (length (D.ends g.graph)))
                    there)),
        )
        | inr missing ↦ (
          r,
          added ++ length (D.ends g.graph) ∷ [],
          rw (run, add_new_direct_edge) (rw missing refl),
          one-Connects dec D V src dst g r added (added ++ length (D.ends g.graph) ∷ []) a (λ e.
              next_range (length (D.ends g.graph)) (length (D.ends r.graph)) e added (
                a.grown
                ∙ ap (λ t. if t then length (D.ends g.graph) else suc (length (D.ends g.graph)))
                    missing)),
        )
      ]

  add_projected-Connected :
      (g : Pag P D.Graph V.Vec Fp) (added : List ℕ) (src dst : P)
      (projs : List (ProjectionElems × Ty))
      → IsValid dec D V g
      → Connected g added
          (field_pairs A src dst projs)
          (add_projected dec D V A g added src dst projs)
  unfolding add_projected Option.bind
  add_projected-Connected g added src dst [] v =
      (g, added, refl, nothing-Connects dec D V g added v)
  add_projected-Connected g added src dst ((proj, ty) ∷ projs) v =
      let (m, some_added, first, a) =
        add_new_direct_edge-Connected g added (A.append_projection src proj)
          (A.append_projection dst proj) v in
      let (r, all, rest, b) = add_projected-Connected m some_added src dst projs a.valid in
      (
        r,
        all,
        rw (first, add_projected) rest,
        then-Connects dec D V ((A.append_projection src proj, A.append_projection dst proj) ∷ [])
            (field_pairs A src dst projs) g m r added some_added all a b,
      )

  -- In a valid graph `add_new_direct_edges` does not panic and answers the numbers of the edges that
  -- are new.
  pub add_new_direct_edges-Connected :
      (g : Pag P D.Graph V.Vec Fp) (src dst : P) (ty : Ty)
      → IsValid dec D V g
      → Connected g [] (pointer_pairs A src dst ty) (add_new_direct_edges dec D V A g src dst ty)
  unfolding add_new_direct_edges
  add_new_direct_edges-Connected g src dst ty v = elim (Bool-cases (A.is_any_ptr ty)) [
    | inl ptr ↦ rw ptr (add_new_direct_edge-Connected g [] src dst v)
    | inr other ↦ rw other (add_projected-Connected g [] src dst (A.get_pointer_projections ty) v)
  ]

  add_args-Connected :
      (g : Pag P D.Graph V.Vec Fp) (added : List ℕ) (callee : F) (i : ℕ) (args : List P)
      → IsValid dec D V g
      → Connected g added (arg_pairs A callee i args) (add_args dec D V A g added callee i args)
  unfolding add_args Option.bind
  add_args-Connected g added callee i [] v = (g, added, refl, nothing-Connects dec D V g added v)
  add_args-Connected g added callee i (arg ∷ args) v =
      let param = A.new_parameter callee (i + 1) in
      let ty = A.try_eval_path_type arg in
      let (m, new_edges, first, a) = add_new_direct_edges-Connected g arg param ty v in
      let (r, all, rest, b) =
        add_args-Connected m (added ++ new_edges) callee (i + 1) args a.valid in
      (
        r,
        all,
        rw (first, add_args) rest,
        then-Connects dec D V (pointer_pairs A arg param ty) (arg_pairs A callee (i + 1) args) g m r
            added (added ++ new_edges) all
            (behind-Connects dec D V (pointer_pairs A arg param ty) g m added new_edges a) b,
      )

  -- In a valid pointer assignment graph `add_inter_procedural_edges` does not panic. The
  -- graph stays valid; its new edges are direct, from each argument to its parameter and from
  -- the returned value to the destination, where these are pointers, and else between their
  -- pointer fields; there are none if the callee has no body. It answers exactly the numbers
  -- of the edges that are new.
  pub add_inter_procedural_edges-Connected :
      {Location : Type 0} (g : Pag P D.Graph V.Vec Fp) (callsite : CallSite F Location P)
      (callee : F)
      → IsValid dec D V g
      → Connected g []
          (if A.is_mir_available callee then call_pairs A callsite callee else [])
          (add_inter_procedural_edges dec D V A g callsite callee)
  unfolding add_inter_procedural_edges Option.bind
  add_inter_procedural_edges-Connected g callsite callee v =
      elim (Bool-cases (A.is_mir_available callee)) [
        | inr missing ↦ rw missing (g, [], refl, nothing-Connects dec D V g [] v)
        | inl available ↦
            let (m, some_added, args, a) = add_args-Connected g [] callee 0 callsite.args v in
            let ret = A.new_return_value callee in
            let ty = A.try_eval_path_type callsite.destination in
            let (r, new_edges, result, b) =
              add_new_direct_edges-Connected m ret callsite.destination ty a.valid in
            rw available (
              r,
              some_added ++ new_edges,
              rw (args, add_inter_procedural_edges) (rw result refl),
              then-Connects dec D V (arg_pairs A callee 0 callsite.args)
                  (pointer_pairs A ret callsite.destination ty) g m r [] some_added
                  (some_added ++ new_edges) a
                  (behind-Connects dec D V (pointer_pairs A ret callsite.destination ty) m r
                    some_added new_edges b),
            )
      ]
