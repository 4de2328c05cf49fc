-- ===== src/ChunkedQueue/Iterate.antt =====
-- `IterCopied` and `Iter`: each `next` gives the element at the position of the cursor.
use rupta_fork.Base.{
  ℕ, zero, suc, ◌+◌, ◌*◌, ◌<◌, ◌≤◌, ◌≡◌, ◌⊎◌, inl, inr, refl, sym, ap, subst, ◌∙◌, List, [], ◌∷◌,
  ◌++◌, Bool, true, false, ◌==◌, Option, none, some, ltb, if◌then◌else◌, length, get_elem?, arith,
  length-append, get_elem?-lt, get_elem?_within, get_elem?-append_left, dec_lt,
}
use mathlib.Core.List.{append-nil}
use rupta_fork.ChunkedQueue.{
  ArrayVec, Chunk, ChunkedQueue, Cursor, chunk_cap, iter_copied, get_elem, advance, read_copied,
  next_copied,
}
use rupta_fork.ChunkedQueue.Chain.{IsChain, contents}
use rupta_fork.ChunkedQueue.Push.{IsValid}

get_elem?-append_right {ℓ} :
    {A : Type ℓ} (xs ys : List A) (i n : ℕ)
    → n ≡ length xs + i
    → get_elem? (xs ++ ys) n ≡ get_elem? ys i
get_elem?-append_right [] ys i n e = ap (get_elem? ys) (omega arith)
get_elem?-append_right (x ∷ xs) ys i zero e = absurd (omega arith)
get_elem?-append_right (x ∷ xs) ys i (suc n) e = get_elem?-append_right xs ys i n (omega arith)

pub get_elem?_beyond {ℓ} :
    {A : Type ℓ} (xs : List A) (i : ℕ) → length xs ≤ i → get_elem? xs i ≡ none
get_elem?_beyond [] i h = refl
get_elem?_beyond (x ∷ xs) zero h = absurd (omega arith)
get_elem?_beyond (x ∷ xs) (suc i) h = get_elem?_beyond xs i (omega arith)

module _ {A : Type 0} (V : ArrayVec A chunk_cap) where
  open V use {Vec, items}

  -- The k-th chunk of a chain whose numbers start at `i`: what it holds of the whole, whether it
  -- is full and linked, or the last.
  record ChunkAt (i : ℕ) (cs : List (Chunk Vec)) (k : ℕ) (c : Chunk Vec) : Type 0 where
    stands : get_elem? cs k ≡ some c
    reads :
        (j : ℕ)
        → j < chunk_cap
        → get_elem? (contents V cs) (k * chunk_cap + j) ≡ get_elem? (items c.elems) j
    kind :
        (c.next ≡ some (suc (i + k))) × (suc k < length cs) × (length (items c.elems) ≡ chunk_cap)
        ⊎ (c.next ≡ none)
          × (length (contents V cs) ≡ k * chunk_cap + length (items c.elems))
          × (length (items c.elems) ≤ chunk_cap)

  chunk_at :
      (before : Option ℕ) (i : ℕ) (cs : List (Chunk Vec)) (k : ℕ)
      → IsChain V before i cs
      → k < length cs
      → (c : Chunk Vec) × ChunkAt i cs k c
  chunk_at before i [] k v h = absurd (omega arith)
  chunk_at before i (c ∷ []) zero v h = (
    c,
    record {
      stands = refl;
      reads =
          λ j hj. rw (append-nil (items c.elems)) (ap (get_elem? (items c.elems)) (omega arith));
      kind = inr (v.1, rw (append-nil (items c.elems)) (omega arith), v.2);
    },
  )
  chunk_at before i (c ∷ []) (suc k) v h = absurd (omega arith)
  chunk_at before i (c ∷ d ∷ cs) zero v h = (
    c,
    record {
      stands = refl;
      reads = λ j hj.
          ap (get_elem? (contents V (c ∷ d ∷ cs))) (omega arith)
          ∙ get_elem?-append_left (items c.elems) (contents V (d ∷ cs)) j (omega (arith, v.2));
      kind = inl (v.1 ∙ ap some (omega arith), omega arith, v.2);
    },
  )
  chunk_at before i (c ∷ d ∷ cs) (suc k) v h =
      let (l, at) = chunk_at (some i) (suc i) (d ∷ cs) k v.3 (omega arith) in
      (
        l,
        record {
          stands = at.stands;
          reads = λ j hj.
              get_elem?-append_right (items c.elems) (contents V (d ∷ cs)) (k * chunk_cap + j)
                (suc k * chunk_cap + j) (omega (arith, v.2))
              ∙ at.reads j hj;
          kind = elim at.kind [
            | inl (e, lt, full) ↦ inl (e ∙ ap some (omega arith), omega arith, full)
            | inr (e, total, fits) ↦ inr (
              e,
              omega (arith, length-append (items c.elems) (contents V (d ∷ cs)), v.2, total),
              fits,
            )
          ];
        },
      )

  module _ (q : ChunkedQueue Vec) (v : IsValid V q) where
    -- The cursor has `k` elements behind it.
    pub record At (it : Cursor) (k : ℕ) : Type 0 where
      pub inside : it.chunk < length q.chunks
      pub within : it.index ≤ chunk_cap
      pub position : it.chunk * chunk_cap + it.index ≡ k
      pub bound : k ≤ length (contents V q.chunks)

    -- What a step of the iterator from position `k` is to give.
    pub record Steps (k : ℕ) (r : Option A × Cursor) : Type 0 where
      pub item : r.0 ≡ get_elem? (contents V q.chunks) k
      pub at : At r.1 (if ltb k (length (contents V q.chunks)) then suc k else k)

    read_copied_found :
        (it : Cursor) (c : Chunk Vec)
        → get_elem? q.chunks it.chunk ≡ some c
        → read_copied V q it ≡ (
            if ltb it.index (length (items c.elems))
            then (get_elem? (items c.elems) it.index, record it { index = it.index + 1 })
            else (none, it))
    unfolding read_copied get_elem
    read_copied_found it c h =
        rw (h, read_copied) (ground (arith, V.len-items c.elems, V.get-items c.elems it.index))

    read_copied-Steps :
        (it : Cursor) (k : ℕ) → At it k → it.index < chunk_cap → Steps k (read_copied V q it)
    read_copied-Steps it k a h =
        let (c, ch) = chunk_at none 0 q.chunks it.chunk v.chain a.inside in
        let here : get_elem? (contents V q.chunks) k ≡ get_elem? (items c.elems) it.index =
          subst (λ n. get_elem? (contents V q.chunks) n ≡ get_elem? (items c.elems) it.index)
            a.position (ch.reads it.index h) in
        elim (dec_lt it.index (length (items c.elems))) [
          | yes lt ↦
              let (x, found) = get_elem?_within (items c.elems) it.index lt in
              let more : k < length (contents V q.chunks) =
                get_elem?-lt (contents V q.chunks) x k (here ∙ found) in
              subst (Steps k)
                (sym (
                  read_copied_found it c ch.stands
                  ∙ either (ltb it.index (length (items c.elems)))
                      (get_elem? (items c.elems) it.index, record it { index = it.index + 1 })
                      (none, it)
                      (get_elem? (items c.elems) it.index, record it { index = it.index + 1 })
                      (inl (ground arith, refl))))
                (record {
                  item = sym here;
                  at =
                      subst (At (record it { index = it.index + 1 }))
                        (sym (counted_on k (length (contents V q.chunks)) more))
                        (record {
                          inside = a.inside;
                          within = omega arith;
                          position = omega (arith, a.position);
                          bound = omega arith;
                        });
                })
          | no ge ↦
              let ended : k ≡ length (contents V q.chunks) = at_end it k c a ch ge h in
              subst (Steps k)
                (sym (
                  read_copied_found it c ch.stands
                  ∙ either (ltb it.index (length (items c.elems)))
                      (get_elem? (items c.elems) it.index, record it { index = it.index + 1 })
                      (none, it) (none, it) (inr (ground arith, refl))))
                (record {
                  item = sym (get_elem?_beyond (contents V q.chunks) k (omega arith));
                  at =
                      subst (At it) (sym (stays_put k (length (contents V q.chunks)) (omega arith)))
                        a;
                })
        ]
      where
        either :
            (b : Bool) (x y r : Option A × Cursor)
            → (b ≡ true × x ≡ r) ⊎ (b ≡ false × y ≡ r)
            → (if b then x else y) ≡ r
        either b x y r (inl (h, e)) = rw h e
        either b x y r (inr (h, e)) = rw h e

        counted_on : (k n : ℕ) → k < n → (if ltb k n then suc k else k) ≡ suc k
        counted_on k n h = ground arith

        stays_put : (k n : ℕ) → n ≤ k → (if ltb k n then suc k else k) ≡ k
        stays_put k n h = ground arith

        at_end :
            (it : Cursor) (k : ℕ) (c : Chunk Vec)
            → At it k
            → ChunkAt 0 q.chunks it.chunk c
            → ¬ (it.index < length (items c.elems))
            → it.index < chunk_cap
            → k ≡ length (contents V q.chunks)
        at_end it k c a ch ge h = elim ch.kind [
          | inl (_, _, full) ↦ absurd (omega arith)
          | inr (_, total, _) ↦ omega (arith, a.position, a.bound)
        ]

    next_copied_at :
        (it at : Cursor) → advance V q it ≡ some at → next_copied V q it ≡ read_copied V q at
    unfolding next_copied
    next_copied_at it at h = rw (h, next_copied) refl

    next_copied_stuck : (it : Cursor) → advance V q it ≡ none → next_copied V q it ≡ (none, it)
    unfolding next_copied
    next_copied_stuck it h = rw (h, next_copied) refl

    advance_within : (it : Cursor) → it.index < chunk_cap → advance V q it ≡ some it
    unfolding advance
    advance_within it h = ground arith

    advance_linked :
        (it : Cursor) (c : Chunk Vec) (n : ℕ)
        → it.index ≡ chunk_cap
        → get_elem? q.chunks it.chunk ≡ some c
        → c.next ≡ some n
        → advance V q it ≡ some (record { chunk = n; index = 0 })
    unfolding advance
    advance_linked it c n full h linked =
        let test : (it.index == chunk_cap) ≡ true = ground arith in
        rw (test, advance) (rw h (rw linked refl))

    advance_last :
        (it : Cursor) (c : Chunk Vec)
        → it.index ≡ chunk_cap
        → get_elem? q.chunks it.chunk ≡ some c
        → c.next ≡ none
        → advance V q it ≡ none
    unfolding advance
    advance_last it c full h linked =
        let test : (it.index == chunk_cap) ≡ true = ground arith in
        rw (test, advance) (rw h (rw linked refl))

    pub next_copied-Steps : (it : Cursor) (k : ℕ) → At it k → Steps k (next_copied V q it)
    next_copied-Steps it k a = elim (dec_lt it.index chunk_cap) [
      | yes inner ↦
          subst (Steps k) (sym (next_copied_at it it (advance_within it inner)))
            (read_copied-Steps it k a inner)
      | no outer ↦
          let (c, ch) = chunk_at none 0 q.chunks it.chunk v.chain a.inside in
          elim ch.kind [
            | inl (linked, more, full) ↦
                let at : Cursor = record { chunk = suc it.chunk; index = 0 } in
                subst (Steps k)
                  (sym (
                    next_copied_at it at (
                      advance_linked it c (suc it.chunk) (omega (arith, a.within)) ch.stands
                        (linked ∙ ap some (omega arith)))))
                  (read_copied-Steps at k
                    (record {
                      inside = more;
                      within = omega arith;
                      position = omega (arith, a.position, a.within);
                      bound = a.bound;
                    })
                    (omega arith))
            | inr (unlinked, total, fits) ↦
                let over : length (contents V q.chunks) ≤ k = omega (arith, a.position, a.within) in
                subst (Steps k)
                  (sym (
                    next_copied_stuck it
                      (advance_last it c (omega (arith, a.within)) ch.stands unlinked)))
                  (record {
                    item = sym (get_elem?_beyond (contents V q.chunks) k over);
                    at = subst (At it) (sym (stays k (length (contents V q.chunks)) over)) a;
                  })
          ]
    ]
      where
        stays : (k n : ℕ) → n ≤ k → (if ltb k n then suc k else k) ≡ k
        stays k n h = ground arith

    pub iter_copied-At : At (iter_copied V q) 0
    unfolding iter_copied
    iter_copied-At = record {
      inside = omega (arith, v.first, v.last);
      within = omega arith;
      position = omega (arith, v.first);
      bound = omega arith;
    }
