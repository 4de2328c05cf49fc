-- ===== src/ChunkedQueue/Growing.antt =====
-- An iterator of a queue that grows while it is read, and the loop that reads it to its end.
use rupta_fork.Base.{
  ℕ, zero, suc, ◌+◌, ◌<◌, ◌≡◌, inl, inr, refl, sym, ap, subst, ◌∙◌, List, [], ◌∷◌, none, some, ltb,
  if◌then◌else◌, length, get_elem?, drop, arith, Option-cases, length-append, get_elem?-append_new,
  get_elem?-lt,
}
use mathlib.Core.Option.{none-ne-some, some-injective}
use rupta_fork.ChunkedQueue.{
  ArrayVec, ChunkedQueue, Cursor, chunk_cap, push, iter_copied, next_copied,
}
use rupta_fork.ChunkedQueue.Chain.{contents}
use rupta_fork.ChunkedQueue.Push.{IsValid, Pushes, push-Pushes}
use rupta_fork.ChunkedQueue.Iterate.{At, next_copied-Steps, iter_copied-At, get_elem?_beyond}

drop_rest {ℓ} :
    {A : Type ℓ} (xs : List A) (k : ℕ) (x : A)
    → get_elem? xs k ≡ some x
    → drop k xs ≡ (x ∷ drop (suc k) xs)
drop_rest [] k x h = absurd (none-ne-some x h)
drop_rest (y ∷ xs) zero x h = ap (λ z. z ∷ xs) (some-injective y x h)
drop_rest (y ∷ xs) (suc k) x h = drop_rest xs k x h

drop-none {ℓ} : {A : Type ℓ} (xs : List A) (k : ℕ) → get_elem? xs k ≡ none → drop k xs ≡ []
drop-none [] zero h = refl
drop-none [] (suc k) h = refl
drop-none (y ∷ xs) zero h = absurd (none-ne-some y (sym h))
drop-none (y ∷ xs) (suc k) h = drop-none xs k h

module _ {A : Type 0} (V : ArrayVec A chunk_cap) where
  open V use {Vec}

  -- `for elem in queue.iter_copied()`, from the cursor on, in up to `fuel` steps.
  unfoldable pub drain : ChunkedQueue Vec → ℕ → Cursor → List A
  drain q zero it = []
  drain q (suc fuel) it =
      let (item, at) = next_copied V q it in
      let rest = drain q fuel at in elim item [ none ↦ [] | some elem ↦ elem ∷ rest ]

  module _ (q : ChunkedQueue Vec) (v : IsValid V q) where
    pub drain-contents :
        (fuel : ℕ) (it : Cursor) (k : ℕ)
        → At V q v it k
        → length (contents V q.chunks) < k + fuel
        → drain q fuel it ≡ drop k (contents V q.chunks)
    unfolding drain
    drain-contents zero it k a enough = absurd (omega (arith, a.bound))
    drain-contents (suc fuel) it k a enough =
        let s = next_copied-Steps V q v it k a in
        elim (Option-cases (get_elem? (contents V q.chunks) k)) [
          | inl missing ↦
              rw (s.item ∙ missing, drain) (sym (drop-none (contents V q.chunks) k missing))
          | inr (elem, found) ↦
              rw (s.item ∙ found, drain)
                (ap (◌∷◌ elem) (
                    drain-contents fuel (next_copied V q it).1 (suc k)
                      (subst (At V q v (next_copied V q it).1)
                        (counted_on k (length (contents V q.chunks))
                          (get_elem?-lt (contents V q.chunks) elem k found))
                        s.at)
                      (omega arith))
                  ∙ sym (drop_rest (contents V q.chunks) k elem found))
        ]
      where
        counted_on : (k n : ℕ) → k < n → (if ltb k n then suc k else k) ≡ suc k
        counted_on k n h = ground arith

    -- On a valid queue, a loop over `iter_copied` that is given a round for each element
    -- and one to stop visits exactly the pushed elements in their order.
    pub drain-iter_copied :
        drain q (suc (length (contents V q.chunks))) (iter_copied V q) ≡ contents V q.chunks
    drain-iter_copied =
        drain-contents (suc (length (contents V q.chunks))) (iter_copied V q) 0
          (iter_copied-At V q v) (omega arith)

    -- The cursor stands in the queue that has grown where it stood before.
    pub push-At :
        (elem : A) (r : ChunkedQueue Vec) (it : Cursor) (k : ℕ) (p : Pushes V q v elem r)
        → At V q v it k
        → At V r p.valid it k
    push-At elem r it k p a = record {
      inside = omega (arith, a.inside, p.grows);
      within = a.within;
      position = a.position;
      bound =
          omega
            (arith, a.bound, ap length p.appended, length-append (contents V q.chunks) (elem ∷ []));
    }

  -- An iterator that has read a valid queue to its end gives nothing; after a push, which
  -- does not fault, the same iterator gives the new element and then nothing again.
  pub push-next_copied :
      (q : ChunkedQueue Vec) (v : IsValid V q) (elem : A) (it : Cursor)
      → At V q v it (length (contents V q.chunks))
      → ((next_copied V q it).0 ≡ none)
        × (r : ChunkedQueue Vec) × (push V q elem ≡ some r)
        × ((next_copied V r it).0 ≡ some elem)
        × ((next_copied V r (next_copied V r it).1).0 ≡ none)
  push-next_copied q v elem it a =
      let (r, pushed, p) = push-Pushes V q v elem in
      let n = length (contents V q.chunks) in
      let size : length (contents V r.chunks) ≡ suc n =
        omega (arith, ap length p.appended, length-append (contents V q.chunks) (elem ∷ [])) in
      let s = next_copied-Steps V r p.valid it n (push-At q v elem r it n p a) in
      let t = next_copied-Steps V r p.valid (next_copied V r it).1 (suc n) (
        subst (At V r p.valid (next_copied V r it).1)
          (counted_on n (length (contents V r.chunks)) (omega arith)) s.at) in
      (
        (next_copied-Steps V q v it n a).item
            ∙ get_elem?_beyond (contents V q.chunks) n (omega arith),
        r,
        pushed,
        s.item
            ∙ ap (λ xs. get_elem? xs n) p.appended
            ∙ get_elem?-append_new (contents V q.chunks) elem,
        t.item ∙ get_elem?_beyond (contents V r.chunks) (suc n) (omega arith),
      )
    where
      counted_on : (k n : ℕ) → k < n → (if ltb k n then suc k else k) ≡ suc k
      counted_on k n h = ground arith
