-- ===== src/ChunkedQueue/Chain.antt =====
-- The chain of chunks: its invariant, what it holds, and what is written at its end.
use rupta_fork.Base.{
  ℕ, zero, suc, ◌+◌, ◌≤◌, ◌≡◌, refl, sym, ap, ◌∙◌, List, [], ◌∷◌, ◌++◌, Option, none, some, length,
  get_elem?, set, arith,
}
use mathlib.Core.List.{append_assoc, append-nil}
use rupta_fork.ChunkedQueue.{ArrayVec, Chunk, chunk_cap}

pub set-append_new {ℓ} :
    {A : Type ℓ} (xs : List A) (a b : A) → set (xs ++ a ∷ []) (length xs) b ≡ (xs ++ b ∷ [])
set-append_new [] a b = refl
set-append_new (x ∷ xs) a b = ap (◌∷◌ x) (set-append_new xs a b)

module _ {A : Type 0} (V : ArrayVec A chunk_cap) where
  open V use {Vec, items}

  -- The chunks from number `i` on, `before` being the link back of the first: each is linked to
  -- the next one and full, and the last is linked to none.
  abbrev pub IsChain : Option ℕ → ℕ → List (Chunk Vec) → Type 0
  IsChain before i [] = ⊥
  IsChain before i (c ∷ []) =
      (c.prev ≡ before) × (c.next ≡ none) × (length (items c.elems) ≤ chunk_cap)
  IsChain before i (c ∷ d ∷ cs) =
      (c.prev ≡ before)
      × (c.next ≡ some (suc i))
      × (length (items c.elems) ≡ chunk_cap)
      × IsChain (some i) (suc i) (d ∷ cs)

  abbrev pub contents : List (Chunk Vec) → List A
  contents [] = []
  contents (c ∷ cs) = items c.elems ++ contents cs

  -- The chunk at the end.
  pub record IsLast (cs : List (Chunk Vec)) (t : ℕ) (c : Chunk Vec) : Type 0 where
    pub stands : get_elem? cs t ≡ some c
    pub room : length (items c.elems) ≤ chunk_cap
    pub unlinked : c.next ≡ none

  pub chain-IsLast :
      (before : Option ℕ) (i : ℕ) (cs : List (Chunk Vec)) (t : ℕ)
      → IsChain before i cs
      → suc t ≡ length cs
      → (c : Chunk Vec) × IsLast cs t c
  chain-IsLast before i [] t v e = absurd (omega arith)
  chain-IsLast before i (c ∷ []) zero v e =
      (c, record { stands = refl; room = v.2; unlinked = v.1 })
  chain-IsLast before i (c ∷ []) (suc t) v e = absurd (omega arith)
  chain-IsLast before i (c ∷ d ∷ cs) zero v e = absurd (omega arith)
  chain-IsLast before i (c ∷ d ∷ cs) (suc t) v e =
      let (l, h) = chain-IsLast (some i) (suc i) (d ∷ cs) t v.3 (omega arith) in
      (l, record { stands = h.stands; room = h.room; unlinked = h.unlinked })

  -- The last chunk rewritten with one more element.
  pub IsChain-set_last :
      (before : Option ℕ) (i : ℕ) (cs : List (Chunk Vec)) (t : ℕ) (c d : Chunk Vec) (a : A)
      → IsChain before i cs
      → suc t ≡ length cs
      → get_elem? cs t ≡ some c
      → d.prev ≡ c.prev
      → d.next ≡ none
      → items d.elems ≡ (items c.elems ++ a ∷ [])
      → length (items d.elems) ≤ chunk_cap
      → IsChain before i (set cs t d) × (contents (set cs t d) ≡ (contents cs ++ a ∷ []))
  IsChain-set_last before i [] t c d a v e at p n h fits = absurd (omega arith)
  IsChain-set_last before i (b ∷ []) zero c d a v e at p n h fits =
      let same : b ≡ c = cc in
      (
        (p ∙ ap (λ (x : Chunk Vec). x.prev) (sym same) ∙ v.0, n, fits),
        append-nil (items d.elems)
            ∙ h
            ∙ ap (λ (x : Chunk Vec). items x.elems ++ a ∷ []) (sym same)
            ∙ ap (λ xs. xs ++ a ∷ []) (sym (append-nil (items b.elems))),
      )
  IsChain-set_last before i (b ∷ []) (suc t) c d a v e at p n h fits = absurd (omega arith)
  IsChain-set_last before i (b ∷ b' ∷ cs) zero c d a v e at p n h fits = absurd (omega arith)
  IsChain-set_last before i (b ∷ b' ∷ []) (suc zero) c d a v e at p n h fits =
      let (chain, all) =
        IsChain-set_last (some i) (suc i) (b' ∷ []) zero c d a v.3 (omega arith) at p n h fits in
      (
        (v.0, v.1, v.2, chain),
        ap (λ xs. items b.elems ++ xs) all
            ∙ sym (append_assoc (items b.elems) (contents (b' ∷ [])) (a ∷ [])),
      )
  IsChain-set_last before i (b ∷ b' ∷ []) (suc (suc t)) c d a v e at p n h fits =
      absurd (omega arith)
  IsChain-set_last before i (b ∷ b' ∷ b'' ∷ cs) (suc zero) c d a v e at p n h fits =
      absurd (omega arith)
  IsChain-set_last before i (b ∷ b' ∷ b'' ∷ cs) (suc (suc t)) c d a v e at p n h fits =
      let (chain, all) =
        IsChain-set_last (some i) (suc i) (b' ∷ b'' ∷ cs) (suc t) c d a v.3 (omega arith) at p n h
          fits in
      (
        (v.0, v.1, v.2, chain),
        ap (λ xs. items b.elems ++ xs) all
            ∙ sym (append_assoc (items b.elems) (contents (b' ∷ b'' ∷ cs)) (a ∷ [])),
      )

  -- A new last chunk behind the old one, which is full.
  pub IsChain-link :
      (before : Option ℕ) (i : ℕ) (cs : List (Chunk Vec)) (t : ℕ) (c l d : Chunk Vec)
      → IsChain before i cs
      → suc t ≡ length cs
      → get_elem? cs t ≡ some c
      → l.prev ≡ c.prev
      → l.next ≡ some (suc (i + t))
      → l.elems ≡ c.elems
      → length (items c.elems) ≡ chunk_cap
      → d.prev ≡ some (i + t)
      → d.next ≡ none
      → length (items d.elems) ≤ chunk_cap
      → IsChain before i (set cs t l ++ d ∷ [])
        × (contents (set cs t l ++ d ∷ []) ≡ (contents cs ++ items d.elems))
  IsChain-link before i [] t c l d v e at lp ln le full dp dn fits = absurd (omega arith)
  IsChain-link before i (b ∷ []) (suc t) c l d v e at lp ln le full dp dn fits =
      absurd (omega arith)
  IsChain-link before i (b ∷ []) zero c l d v e at lp ln le full dp dn fits =
      let same : b ≡ c = cc in
      let elems : l.elems ≡ b.elems = le ∙ ap (λ (x : Chunk Vec). x.elems) (sym same) in
      (
        (
          lp ∙ ap (λ (x : Chunk Vec). x.prev) (sym same) ∙ v.0,
          ln ∙ ap some (omega arith),
          ap (λ w. length (items w)) le ∙ full,
          (dp ∙ ap some (omega arith), dn, fits),
        ),
        ap (λ xs. items l.elems ++ xs) (append-nil (items d.elems))
            ∙ ap (λ w. items w ++ items d.elems) elems
            ∙ ap (λ xs. xs ++ items d.elems) (sym (append-nil (items b.elems))),
      )
  IsChain-link before i (b ∷ b' ∷ cs) zero c l d v e at lp ln le full dp dn fits =
      absurd (omega arith)
  IsChain-link before i (b ∷ b' ∷ []) (suc zero) c l d v e at lp ln le full dp dn fits =
      let (chain, all) =
        IsChain-link (some i) (suc i) (b' ∷ []) (zero) c l d v.3 (omega arith) at lp
          (ln ∙ ap some (omega arith)) le full (dp ∙ ap some (omega arith)) dn fits in
      (
        (v.0, v.1, v.2, chain),
        ap (λ xs. items b.elems ++ xs) all
            ∙ sym (append_assoc (items b.elems) (contents (b' ∷ [])) (items d.elems)),
      )
  IsChain-link before i (b ∷ b' ∷ []) (suc (suc t)) c l d v e at lp ln le full dp dn fits =
      absurd (omega arith)
  IsChain-link before i (b ∷ b' ∷ b'' ∷ cs) (suc zero) c l d v e at lp ln le full dp dn fits =
      absurd (omega arith)
  IsChain-link before i (b ∷ b' ∷ b'' ∷ cs) (suc (suc t)) c l d v e at lp ln le full dp dn fits =
      let (chain, all) =
        IsChain-link (some i) (suc i) (b' ∷ b'' ∷ cs) (suc t) c l d v.3 (omega arith) at lp
          (ln ∙ ap some (omega arith)) le full (dp ∙ ap some (omega arith)) dn fits in
      (
        (v.0, v.1, v.2, chain),
        ap (λ xs. items b.elems ++ xs) all
            ∙ sym (append_assoc (items b.elems) (contents (b' ∷ b'' ∷ cs)) (items d.elems)),
      )
