-- ===== src/ChunkedQueue.antt =====
-- src/util/chunked_queue.rs: a queue as a linked list of chunks. The chunks stand in a store, and a
-- `NonNull` is an index into it; a new chunk stands at its end, and `none` is a fault, a read
-- through a pointer to no chunk or a push to a full one. `ArrayVec` of the crate arrayvec is the
-- parameter `ArrayVec`. `drop` gives the chunks back and is not modelled.
pub mod Chain
pub mod Push
pub mod Iterate
pub mod Growing
use rupta_fork.Base.{
  ℕ, ◌+◌, ◌<◌, ◌≡◌, List, [], ◌∷◌, ◌++◌, Bool, true, false, ◌==◌, Option, none, some, leb, ltb,
  if◌then◌else◌, length, get_elem?, set,
}
use mathlib.Core.Option

abbrev pub chunk_cap : ℕ
chunk_cap = 60

-- `ArrayVec<T, cap>`: a vector that holds up to `cap` elements, `push` panics where it is full.
pub record ArrayVec (A : Type 0) (cap : ℕ) : Type 1 where
  pub Vec : Type 0
  pub new : Vec
  pub len : Vec → ℕ
  pub is_full : Vec → Bool
  pub push : Vec → A → Option Vec
  pub get : Vec → ℕ → Option A
  pub items : Vec → List A
  pub items-new : items new ≡ []
  pub len-items : (v : Vec) → len v ≡ length (items v)
  pub is_full-items : (v : Vec) → is_full v ≡ leb cap (length (items v))
  pub push-items :
      (v : Vec) (a : A)
      → length (items v) < cap
      → (w : Vec) × (push v a ≡ some w) × (items w ≡ (items v ++ a ∷ []))
  pub get-items : (v : Vec) (i : ℕ) → get v i ≡ get_elem? (items v) i

pub record Chunk (V : Type 0) : Type 0 where
  pub next : Option ℕ
  pub prev : Option ℕ
  pub elems : V

pub record ChunkedQueue (V : Type 0) : Type 0 where
  pub chunks : List (Chunk V)
  pub head : ℕ
  pub tail : ℕ
  pub len : ℕ

-- `Iter` and `IterCopied`: the current chunk and the index of the next element in it.
pub record Cursor : Type 0 where
  pub chunk : ℕ
  pub index : ℕ

module _ {A : Type 0} (V : ArrayVec A chunk_cap) where
  open V use {Vec}

  unfoldable pub new_chunk : Chunk Vec
  new_chunk = record { next = none; prev = none; elems = V.new }

  unfoldable pub new : ChunkedQueue Vec
  unfolding new_chunk
  new = record { chunks = new_chunk ∷ []; head = 0; tail = 0; len = 0 }

  unfoldable pub is_empty : ChunkedQueue Vec → Bool
  is_empty q = q.len == 0

  -- `(*chunk).elems.push(elem)`
  unfoldable pub push_at : List (Chunk Vec) → ℕ → A → Option (List (Chunk Vec))
  push_at chunks chunk elem = elim (get_elem? chunks chunk) [
    | none ↦ none
    | some c ↦
        Option.map (λ elems. set chunks chunk (record c { elems = elems })) (V.push c.elems elem)
  ]

  -- The store with a new chunk linked behind the chunk `c` at `tail`.
  unfoldable pub link_chunk : List (Chunk Vec) → ℕ → Chunk Vec → List (Chunk Vec)
  unfolding new_chunk
  link_chunk chunks tail c =
      set chunks tail (record c { next = some (length chunks) })
      ++ record new_chunk { prev = some tail } ∷ []

  unfoldable pub push : ChunkedQueue Vec → A → Option (ChunkedQueue Vec)
  unfolding push_at link_chunk
  push q elem = elim (get_elem? q.chunks q.tail) [
    | none ↦ none
    | some c ↦
        let tail = if V.is_full c.elems then length q.chunks else q.tail in
        let chunks = if V.is_full c.elems then link_chunk q.chunks q.tail c else q.chunks in
        Option.map
          (λ written. record { chunks = written; head = q.head; tail = tail; len = q.len + 1 })
          (push_at chunks tail elem)
  ]

  unfoldable pub iter : ChunkedQueue Vec → Cursor
  iter q = record { chunk = q.head; index = 0 }

  unfoldable pub iter_copied : ChunkedQueue Vec → Cursor
  iter_copied q = record { chunk = q.head; index = 0 }

  -- `get_elem` and `get_elem_ref` of a chunk.
  unfoldable pub get_elem : Chunk Vec → ℕ → Option A
  get_elem c index = if ltb index (V.len c.elems) then V.get c.elems index else none

  -- The first half of both `next`: at the end of a chunk, on to the next one, if there is one.
  unfoldable pub advance : ChunkedQueue Vec → Cursor → Option Cursor
  advance q it =
      if it.index == chunk_cap
      then elim (get_elem? q.chunks it.chunk) [
        | none ↦ none
        | some c ↦ Option.map (λ chunk. record { chunk = chunk; index = 0 }) c.next
      ]
      else some it

  -- The second half of `IterCopied::next`, which stays where it is at the end.
  unfoldable pub read_copied : ChunkedQueue Vec → Cursor → Option A × Cursor
  unfolding get_elem
  read_copied q it = elim (get_elem? q.chunks it.chunk) [
    | none ↦ (none, it)
    | some c ↦
        if ltb it.index (V.len c.elems)
        then (get_elem c it.index, record it { index = it.index + 1 })
        else (none, it)
  ]

  unfoldable pub next_copied : ChunkedQueue Vec → Cursor → Option A × Cursor
  unfolding advance read_copied
  next_copied q it = elim (advance q it) [ none ↦ (none, it) | some at ↦ read_copied q at ]

  -- `Iter::next`, which counts on whether or not there is an element.
  unfoldable pub next : ChunkedQueue Vec → Cursor → Option A × Cursor
  unfolding advance get_elem
  next q it = elim (advance q it) [
    | none ↦ (none, it)
    | some at ↦ (
      Option.bind (get_elem? q.chunks at.chunk) (λ c. get_elem c at.index),
      record at { index = at.index + 1 },
    )
  ]
