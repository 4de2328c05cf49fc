-- ===== src/FuncPag/Edges.antt =====
-- The edges of a function's graph, from the calls of `add_internal_edge` to the loop over
-- `internal_edges_iter`.
use rupta_fork.Base.{
  ℕ, zero, suc, ◌≡◌, ◌⊎◌, refl, sym, ap, ◌∙◌, List, [], ◌∷◌, ◌++◌, Option, none, some, ltb, length,
  get_elem?, inl, inr, Bool-cases, Option-cases,
}
use mathlib.Core.List.{append-nil, append_assoc}
use mathlib.Core.Option
use mathlib.Core.Option.{none-ne-some}
use rupta_fork.ChunkedQueue.{ArrayVec, ChunkedQueue, Cursor, chunk_cap}
use rupta_fork.ChunkedQueue
use rupta_fork.ChunkedQueue.Chain.{contents}
use rupta_fork.ChunkedQueue.Push
use rupta_fork.ChunkedQueue.Growing.{drain, drain-iter_copied}
use rupta_fork.FuncPag.{FuncPag, InternalEdge, new, add_internal_edge, internal_edges_iter}

module _ {A : Type 0} (V : ArrayVec A chunk_cap) (q : ChunkedQueue V.Vec) where
  -- A loop over `Iter`, with a round for each element and one to stop.
  unfoldable pub drain_iter : ℕ → Cursor → List A
  drain_iter zero it = []
  drain_iter (suc fuel) it =
      let (item, at) = ChunkedQueue.next V q it in
      let rest = drain_iter fuel at in elim item [ none ↦ [] | some elem ↦ elem ∷ rest ]

  -- The two iterators give the same element, and go on to the same place after one.
  next-next_copied :
      (it : Cursor)
      → (ChunkedQueue.next V q it ≡ ChunkedQueue.next_copied V q it)
        ⊎ ((ChunkedQueue.next V q it).0 ≡ none) × ((ChunkedQueue.next_copied V q it).0 ≡ none)
  unfolding ChunkedQueue.next ChunkedQueue.next_copied ChunkedQueue.read_copied
      ChunkedQueue.get_elem Option.bind
  next-next_copied it = elim (Option-cases (ChunkedQueue.advance V q it)) [
    | inl stop ↦ inl (rw (stop, ChunkedQueue.next, ChunkedQueue.next_copied) refl)
    | inr (at, on) ↦ elim (Option-cases (get_elem? q.chunks at.chunk)) [
      | inl missing ↦ inr (
        rw (on, ChunkedQueue.next) (rw missing refl),
        rw (on, ChunkedQueue.next_copied) (rw (missing, ChunkedQueue.read_copied) refl),
      )
      | inr (c, found) ↦ elim (Bool-cases (ltb at.index (V.len c.elems))) [
        | inl lt ↦ inl (
            rw (on, ChunkedQueue.next, ChunkedQueue.next_copied)
              (rw (found, ChunkedQueue.read_copied) (rw lt refl)))
        | inr ge ↦ inr (
          rw (on, ChunkedQueue.next) (rw (found, ChunkedQueue.get_elem) (rw ge refl)),
          rw (on, ChunkedQueue.next_copied) (rw (found, ChunkedQueue.read_copied) (rw ge refl)),
        )
      ]
    ]
  ]

  abbrev listed : Option A → List A → List A
  listed item rest = elim item [ none ↦ [] | some elem ↦ elem ∷ rest ]

  drain_iter-drain : (fuel : ℕ) (it : Cursor) → drain_iter fuel it ≡ drain V q fuel it
  unfolding drain_iter drain
  drain_iter-drain zero it = refl
  drain_iter-drain (suc fuel) it = elim (next-next_copied it) [
    | inl same ↦
        ap (λ (s : Option A × Cursor). listed s.0 (drain_iter fuel s.1)) same
        ∙ ap (listed (ChunkedQueue.next_copied V q it).0)
            (drain_iter-drain fuel (ChunkedQueue.next_copied V q it).1)
    | inr (a, b) ↦ rw (a, drain_iter) (rw (b, drain) refl)
  ]

module _ {P C : Type 0} (V : ArrayVec (InternalEdge P) chunk_cap) where
  -- `add_internal_edge` for each of the edges, in their order.
  unfoldable pub add_internal_edges :
      FuncPag P C V.Vec → List (InternalEdge P) → Option (FuncPag P C V.Vec)
  add_internal_edges f [] = some f
  add_internal_edges f ((src, dst, kind) ∷ edges) =
      Option.bind (add_internal_edge V f src dst kind) (λ r. add_internal_edges r edges)

  appended_edges :
      (f : FuncPag P C V.Vec) (edges : List (InternalEdge P))
      → Push.IsValid V f.internal_edges
      → (r : FuncPag P C V.Vec) × (add_internal_edges f edges ≡ some r)
        × Push.IsValid V r.internal_edges
        × (contents V r.internal_edges.chunks ≡ (contents V f.internal_edges.chunks ++ edges))
  unfolding add_internal_edges add_internal_edge Option.bind
  appended_edges f [] v = (f, refl, v, sym (append-nil (contents V f.internal_edges.chunks)))
  appended_edges f (edge ∷ edges) v =
      let (q, pushed, p) = Push.push-Pushes V f.internal_edges v edge in
      let (r, run, w, all) = appended_edges (record f { internal_edges = q }) edges p.valid in
      (
        r,
        rw (pushed, add_internal_edges, add_internal_edge) run,
        w,
        all
            ∙ ap (λ xs. xs ++ edges) p.appended
            ∙ append_assoc (contents V f.internal_edges.chunks) (edge ∷ []) edges,
      )

  -- The edges that `add_internal_edge` puts one by one into the new graph of a function, none
  -- of which faults, are those that a loop over `internal_edges_iter` visits, in their order,
  -- and it stops then.
  pub add_internal_edges-iter :
      (func_id : ℕ) (edges : List (InternalEdge P))
      → (r : FuncPag P C V.Vec) × (add_internal_edges (new V func_id) edges ≡ some r)
        × (drain_iter V r.internal_edges (suc (length edges)) (internal_edges_iter V r) ≡ edges)
  unfolding new internal_edges_iter ChunkedQueue.iter ChunkedQueue.iter_copied
  add_internal_edges-iter func_id edges =
      let (r, run, w, all) = appended_edges (new V func_id) edges (Push.new-IsValid V) in
      let same : contents V r.internal_edges.chunks ≡ edges =
        all ∙ ap (λ xs. xs ++ edges) (Push.contents-new V) in
      (
        r,
        run,
        ap (λ n. drain_iter V r.internal_edges (suc n) (internal_edges_iter V r))
              (ap length (sym same))
            ∙ drain_iter-drain V r.internal_edges
                (suc (length (contents V r.internal_edges.chunks))) (internal_edges_iter V r)
            ∙ drain-iter_copied V r.internal_edges w
            ∙ same,
      )
