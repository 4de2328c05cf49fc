-- ===== src/ChunkedQueue/Push.antt =====
-- `push`: no fault, and the element stands at the end.
use rupta_fork.Base.{
  ℕ, suc, ◌+◌, ◌<◌, ◌≤◌, ◌≡◌, refl, sym, ap, subst, ◌∙◌, List, [], ◌∷◌, ◌++◌, true, false, none,
  some, length, get_elem?, set, arith, length-append, length-set, get_elem?-append_new, dec_lt,
}
use mathlib.Core.List.{append-nil}
use rupta_fork.ChunkedQueue.{
  ArrayVec, Chunk, ChunkedQueue, chunk_cap, new_chunk, new, push_at, link_chunk, push,
}
use rupta_fork.ChunkedQueue.Chain.{
  IsChain, contents, chain-IsLast, IsChain-set_last, IsChain-link, set-append_new,
}

module _ {A : Type 0} (V : ArrayVec A chunk_cap) where
  open V use {Vec, items}

  pub record IsValid (q : ChunkedQueue Vec) : Type 0 where
    pub first : q.head ≡ 0
    pub last : suc q.tail ≡ length q.chunks
    pub counted : q.len ≡ length (contents V q.chunks)
    pub chain : IsChain V none 0 q.chunks

  pub contents-new : contents V (new V).chunks ≡ []
  unfolding new new_chunk
  contents-new = append-nil (items V.new) ∙ V.items-new

  pub new-IsValid : IsValid (new V)
  unfolding new new_chunk
  new-IsValid = record {
    first = refl;
    last = refl;
    counted = ap length (sym V.items-new) ∙ ap length (sym (append-nil (items V.new)));
    chain = (refl, refl, omega (arith, ap length V.items-new));
  }

  push_at_found :
      (cs : List (Chunk Vec)) (t : ℕ) (c : Chunk Vec) (a : A) (w : Vec)
      → get_elem? cs t ≡ some c
      → V.push c.elems a ≡ some w
      → push_at V cs t a ≡ some (set cs t (record c { elems = w }))
  unfolding push_at
  push_at_found cs t c a w h pushed = rw (h, push_at) (rw pushed refl)

  module _ (q : ChunkedQueue Vec) (v : IsValid q) (a : A) where
    -- What `push` is to do.
    pub record Pushes (r : ChunkedQueue Vec) : Type 0 where
      pub valid : IsValid r
      pub appended : contents V r.chunks ≡ (contents V q.chunks ++ a ∷ [])
      pub grows : length q.chunks ≤ length r.chunks

    counted_next :
        (cs : List (Chunk Vec))
        → contents V cs ≡ (contents V q.chunks ++ a ∷ [])
        → q.len + 1 ≡ length (contents V cs)
    counted_next cs h =
        omega (arith, ap length h, length-append (contents V q.chunks) (a ∷ []), v.counted)

    push_room :
        (c : Chunk Vec)
        → get_elem? q.chunks q.tail ≡ some c
        → c.next ≡ none
        → length (items c.elems) < chunk_cap
        → (r : ChunkedQueue Vec) × (push V q a ≡ some r) × Pushes r
    unfolding push
    push_room c at unlinked room =
        let (w, pushed, longer) = V.push-items c.elems a room in
        let full : V.is_full c.elems ≡ false = ground (arith, V.is_full-items c.elems) in
        let (chain, all) =
          IsChain-set_last V none 0 q.chunks q.tail c (record c { elems = w }) a v.chain v.last at
            refl unlinked longer
            (omega (arith, ap length longer, length-append (items c.elems) (a ∷ []))) in
        (
          record {
            chunks = set q.chunks q.tail (record c { elems = w });
            head = q.head;
            tail = q.tail;
            len = q.len + 1;
          },
          rw (at, push) (rw full (rw (push_at_found q.chunks q.tail c a w at pushed) refl)),
          record {
            valid = record {
              first = v.first;
              last = v.last ∙ sym (length-set q.chunks q.tail (record c { elems = w }));
              counted = counted_next (set q.chunks q.tail (record c { elems = w })) all;
              chain = chain;
            };
            appended = all;
            grows = omega (arith, length-set q.chunks q.tail (record c { elems = w }));
          },
        )

    push_full :
        (c : Chunk Vec)
        → get_elem? q.chunks q.tail ≡ some c
        → length (items c.elems) ≡ chunk_cap
        → (r : ChunkedQueue Vec) × (push V q a ≡ some r) × Pushes r
    unfolding push link_chunk new_chunk
    push_full c at all_used =
        let (w, pushed, longer) = V.push-items V.new a (omega (arith, ap length V.items-new)) in
        let one : items w ≡ (a ∷ []) = longer ∙ ap (λ xs. xs ++ a ∷ []) V.items-new in
        let full : V.is_full c.elems ≡ true = ground (arith, V.is_full-items c.elems) in
        let linked = set q.chunks q.tail (record c { next = some (length q.chunks) }) in
        let size : length linked ≡ length q.chunks =
          length-set q.chunks q.tail (record c { next = some (length q.chunks) }) in
        let fresh : Chunk Vec = record { next = none; prev = some q.tail; elems = V.new } in
        let written : Chunk Vec = record { next = none; prev = some q.tail; elems = w } in
        let stands : get_elem? (linked ++ fresh ∷ []) (length q.chunks) ≡ some fresh =
          subst (λ n. get_elem? (linked ++ fresh ∷ []) n ≡ some fresh) size
            (get_elem?-append_new linked fresh) in
        let done = push_at_found (linked ++ fresh ∷ []) (length q.chunks) fresh a w stands pushed in
        let rewritten : set (linked ++ fresh ∷ []) (length q.chunks) written
            ≡ (linked ++ written ∷ []) =
          subst (λ n. set (linked ++ fresh ∷ []) n written ≡ (linked ++ written ∷ [])) size
            (set-append_new linked fresh written) in
        let (chain, all) =
          IsChain-link V none 0 q.chunks q.tail c (record c { next = some (length q.chunks) })
            written v.chain v.last at refl (ap some (omega (arith, v.last))) refl all_used
            (ap some (omega arith)) refl (omega (arith, ap length one)) in
        let contained : contents V (linked ++ written ∷ []) ≡ (contents V q.chunks ++ a ∷ []) =
          all ∙ ap (λ xs. contents V q.chunks ++ xs) one in
        (
          record {
            chunks = linked ++ written ∷ [];
            head = q.head;
            tail = length q.chunks;
            len = q.len + 1;
          },
          rw (at, push) (rw full (rw (done, rewritten) refl)),
          record {
            valid = record {
              first = v.first;
              last = omega (arith, size, length-append linked (written ∷ []));
              counted = counted_next (linked ++ written ∷ []) contained;
              chain = chain;
            };
            appended = contained;
            grows = omega (arith, size, length-append linked (written ∷ []));
          },
        )

    -- On a valid queue `push` does not fault, whether the last chunk is full or not: the
    -- queue stays valid, it holds the old elements and then the new one, and loses no
    -- chunk.
    pub push-Pushes : (r : ChunkedQueue Vec) × (push V q a ≡ some r) × Pushes r
    push-Pushes =
        let (c, l) = chain-IsLast V none 0 q.chunks q.tail v.chain v.last in
        elim (dec_lt (length (items c.elems)) chunk_cap) [
          | yes room ↦ push_room c l.stands l.unlinked room
          | no full ↦ push_full c l.stands (omega (arith, l.room))
        ]
