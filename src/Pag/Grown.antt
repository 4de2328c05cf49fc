-- ===== src/Pag/Grown.antt =====
-- A fresh edge entered in its maps: the pointer assignment graph stays valid.
use rupta_fork.Base.{
  ℕ, ◌<◌, ◌≡◌, ◌↔◌, ◌⊎◌, inl, inr, refl, sym, ap, subst, ◌∙◌, [], ◌∷◌, ◌++◌, Bool, true, false,
  ◌&&◌, ◌||◌, ◌==◌, Option, some, length, get_elem?, has, arith, get_elem?-append_cases,
}
use rupta_fork.Base.HashMap
use rupta_fork.Petgraph.{DiGraph}
use rupta_fork.ChunkedQueue.{ArrayVec, chunk_cap}
use rupta_fork.ChunkedQueue.Chain.{contents}
use rupta_fork.Pag.{Pag, PagNode, PagEdge, PagEdgeEnum}
use rupta_fork.Pag.Kinds.{
  EdgeClass, addr, class_of, number, number-injective, out_of, in_of, edges_at,
}
use rupta_fork.Pag.Valid.{edge_of, Leads, Leaves, Enters, IsValid}
use rupta_fork.Pag.Links.{Linked}
use rupta_fork.Pag.Fresh.{fresh-Leads, old-Leads, Leads-cases}

-- What the test of a new entry says.
entry :
    (c d n k e f : ℕ) (old : Bool)
    → (c == d && (n == k && e == f) || old) ≡ true
    → (old ≡ true) ⊎ (c ≡ d) × (n ≡ k) × (e ≡ f)
entry c d n k e f true h = inl refl
entry c d n k e f false h = inr (ground arith, ground arith, ground arith)

new_entry :
    (c d n k e f : ℕ) (old : Bool)
    → c ≡ d
    → n ≡ k
    → e ≡ f
    → (c == d && (n == k && e == f) || old) ≡ true
new_entry c d n k e f old p q s = ground arith

old_entry : (b old : Bool) → old ≡ true → (b || old) ≡ true
old_entry true old h = refl
old_entry false old h = h

module _ {P Fp : Type 0} (dec : Discrete P) (D : DiGraph (PagNode P) PagEdge)
    (V : ArrayVec ℕ chunk_cap) (g r : Pag P D.Graph V.Vec Fp) (v : IsValid dec D V g) (h : D.Graph)
    (i j : ℕ) (kind : PagEdgeEnum) (ends : D.ends h ≡ (D.ends g.graph ++ (i, j) ∷ []))
    (labels : D.labels h ≡ (D.labels g.graph ++ edge_of kind ∷ []))
    (weights : D.weights h ≡ D.weights g.graph)
    (l : Linked dec D V
      (class_of kind)
      (record g { graph = h })
      r
      i
      j
      (length (D.ends g.graph))) where
  same_out : (c : EdgeClass) → out_of c (record g { graph = h }) ≡ out_of c g
  same_out addr = refl
  same_out _ = refl

  same_in : (c : EdgeClass) → in_of c (record g { graph = h }) ≡ in_of c g
  same_in addr = refl
  same_in _ = refl

  -- The edges of `r` are those of `h`.
  to_r : (e a b : ℕ) (k : PagEdgeEnum) → Leads D h e a b k → Leads D r.graph e a b k
  to_r e a b k = subst (λ t. Leads D t e a b k) (sym l.graph)

  of_r : (e a b : ℕ) (k : PagEdgeEnum) → Leads D r.graph e a b k → Leads D h e a b k
  of_r e a b k = subst (λ t. Leads D t e a b k) l.graph

  here_out :
      (c : EdgeClass) (n e : ℕ)
      → has (edges_at (out_of c r) n) e ≡ (
          number (class_of kind) == number c && (i == n && length (D.ends g.graph) == e)
          || has (edges_at (out_of c g) n) e)
  here_out c n e =
      l.out c n e
      ∙ ap
          (λ m.
            number (class_of kind) == number c && (i == n && length (D.ends g.graph) == e)
            || has (edges_at m n) e)
          (same_out c)

  here_in :
      (c : EdgeClass) (n e : ℕ)
      → has (edges_at (in_of c r) n) e ≡ (
          number (class_of kind) == number c && (j == n && length (D.ends g.graph) == e)
          || has (edges_at (in_of c g) n) e)
  here_in c n e =
      l.into c n e
      ∙ ap
          (λ m.
            number (class_of kind) == number c && (j == n && length (D.ends g.graph) == e)
            || has (edges_at m n) e)
          (same_in c)

  -- The fresh edge leaves `i` and enters `j`, under its number and its kind however they are named.
  fresh_out :
      (c : EdgeClass) (n e : ℕ)
      → number (class_of kind) ≡ number c
      → i ≡ n
      → length (D.ends g.graph) ≡ e
      → Leaves dec D V r c n e
  fresh_out c n e same at last = (
    j,
    kind,
    subst (λ m. Leads D r.graph e m j kind) at
        (subst (λ m. Leads D r.graph m i j kind) last
          (to_r (length (D.ends g.graph)) i j kind (fresh-Leads D g.graph h i j kind ends labels))),
    number-injective (class_of kind) c same,
  )

  fresh_in :
      (c : EdgeClass) (n e : ℕ)
      → number (class_of kind) ≡ number c
      → j ≡ n
      → length (D.ends g.graph) ≡ e
      → Enters dec D V r c n e
  fresh_in c n e same at last = (
    i,
    kind,
    subst (λ m. Leads D r.graph e i m kind) at
        (subst (λ m. Leads D r.graph m i j kind) last
          (to_r (length (D.ends g.graph)) i j kind (fresh-Leads D g.graph h i j kind ends labels))),
    number-injective (class_of kind) c same,
  )

  cases :
      (e a b : ℕ) (k : PagEdgeEnum)
      → Leads D r.graph e a b k
      → Leads D g.graph e a b k ⊎ (e ≡ length (D.ends g.graph)) × (i ≡ a) × (j ≡ b) × (kind ≡ k)
  cases e a b k x = Leads-cases D g.graph h i j kind ends labels e a b k (of_r e a b k x)

  lift : (e a b : ℕ) (k : PagEdgeEnum) → Leads D g.graph e a b k → Leads D r.graph e a b k
  lift e a b k x = to_r e a b k (old-Leads D g.graph h i j kind ends labels e a b k x)

  outgoing :
      (c : EdgeClass) (n e : ℕ) → (has (edges_at (out_of c r) n) e ≡ true) ↔ Leaves dec D V r c n e
  outgoing c n e = (
    λ t.
        elim (entry (number (class_of kind)) (number c) i n (length (D.ends g.graph)) e
          (has (edges_at (out_of c g) n) e) (sym (here_out c n e) ∙ t)) [
            | inl old ↦ let (b, k, x, q) = (v.outgoing c n e).0 old in (b, k, lift e n b k x, q)
            | inr (same, at, last) ↦ fresh_out c n e same at last
          ],
    λ x. elim (cases e n x.0 x.1 x.2) [
      | inl old ↦
          here_out c n e
          ∙ old_entry _ (has (edges_at (out_of c g) n) e)
              ((v.outgoing c n e).1 (x.0, x.1, old, x.3))
      | inr (last, at, _, k) ↦
          here_out c n e
          ∙ new_entry (number (class_of kind)) (number c) i n (length (D.ends g.graph)) e
              (has (edges_at (out_of c g) n) e) (ap number (ap class_of k ∙ x.3)) at (sym last)
    ],
  )

  incoming :
      (c : EdgeClass) (n e : ℕ) → (has (edges_at (in_of c r) n) e ≡ true) ↔ Enters dec D V r c n e
  incoming c n e = (
    λ t.
        elim (entry (number (class_of kind)) (number c) j n (length (D.ends g.graph)) e
          (has (edges_at (in_of c g) n) e) (sym (here_in c n e) ∙ t)) [
            | inl old ↦ let (b, k, x, q) = (v.incoming c n e).0 old in (b, k, lift e b n k x, q)
            | inr (same, at, last) ↦ fresh_in c n e same at last
          ],
    λ x. elim (cases e x.0 n x.1 x.2) [
      | inl old ↦
          here_in c n e
          ∙ old_entry _ (has (edges_at (in_of c g) n) e) ((v.incoming c n e).1 (x.0, x.1, old, x.3))
      | inr (last, _, at, k) ↦
          here_in c n e
          ∙ new_entry (number (class_of kind)) (number c) j n (length (D.ends g.graph)) e
              (has (edges_at (in_of c g) n) e) (ap number (ap class_of k ∙ x.3)) at (sym last)
    ],
  )

  queued :
      (e : ℕ)
      → (has (contents V r.addr_edges_queue.chunks) e ≡ true)
        ↔ ((n : ℕ) × Leaves dec D V r addr n e)
  queued e = (
    λ t.
        elim (read (number (class_of kind)) (length (D.ends g.graph)) e
          (has (contents V g.addr_edges_queue.chunks) e) (sym (l.queued e) ∙ t)) [
            | inl old ↦ let (n, (b, k, x, q)) = (v.queued e).0 old in (n, (b, k, lift e n b k x, q))
            | inr (same, last) ↦ (i, fresh_out addr i e same refl last)
          ],
    λ x.
        let (n, (b, k, y, q)) = x in
        elim (cases e n b k y) [
          | inl old ↦
              l.queued e
              ∙ old_entry _ (has (contents V g.addr_edges_queue.chunks) e)
                  ((v.queued e).1 (n, (b, k, old, q)))
          | inr (last, _, _, s) ↦
              l.queued e
              ∙ named (number (class_of kind)) (length (D.ends g.graph)) e
                  (has (contents V g.addr_edges_queue.chunks) e) (ap number (ap class_of s ∙ q))
                  (sym last)
        ],
  )
    where
      read :
          (c e f : ℕ) (old : Bool)
          → (c == 0 && e == f || old) ≡ true
          → (old ≡ true) ⊎ (c ≡ 0) × (e ≡ f)
      read c e f true h = inl refl
      read c e f false h = inr (ground arith, ground arith)

      named : (c e f : ℕ) (old : Bool) → c ≡ 0 → e ≡ f → (c == 0 && e == f || old) ≡ true
      named c e f old p q = ground arith

  module _ (ri : i < length (D.weights g.graph)) (rj : j < length (D.weights g.graph))
      (absent : (e : ℕ) → Leads D g.graph e i j kind → ⊥) where
    once :
        (d e a b : ℕ) (k : PagEdgeEnum) → Leads D r.graph d a b k → Leads D r.graph e a b k → d ≡ e
    once d e a b k x y = elim (cases d a b k x) [
      | inl old ↦ elim (cases e a b k y) [
        | inl old' ↦ v.once d e a b k old old'
        | inr (_, p, q, s) ↦ absurd (absent d (renamed d a b k p q s old))
      ]
      | inr (last, p, q, s) ↦ elim (cases e a b k y) [
        | inl old' ↦ absurd (absent e (renamed e a b k p q s old'))
        | inr (last', _, _, _) ↦ last ∙ sym last'
      ]
    ]
      where
        pair : {a b c d : ℕ} → a ≡ c → b ≡ d → ◌≡◌ {A = Option (ℕ × ℕ)} (some (a, b)) (some (c, d))
        pair p q = λ t. some (p t, q t)

        renamed :
            (d a b : ℕ) (k : PagEdgeEnum)
            → i ≡ a
            → j ≡ b
            → kind ≡ k
            → Leads D g.graph d a b k
            → Leads D g.graph d i j kind
        renamed d a b k p q s x = record {
          between = x.between ∙ pair (sym p) (sym q);
          labelled = x.labelled ∙ ap (λ t. some (edge_of t)) (sym s);
        }

    pub fresh-IsValid : IsValid dec D V r
    fresh-IsValid =
        let ws : D.weights r.graph ≡ D.weights g.graph = ap D.weights l.graph ∙ weights in
        record {
          numbered = λ p k found.
              ap (λ xs. get_elem? xs k) ws
              ∙ v.numbered p k (ap (λ m. HashMap.get dec m p) (sym l.values) ∙ found);
          known = λ p k found.
              ap (λ m. HashMap.get dec m p) l.values
              ∙ v.known p k (ap (λ xs. get_elem? xs k) (sym ws) ∙ found);
          in_range = λ e a b found.
              elim (get_elem?-append_cases (D.ends g.graph) (i, j) (a, b) e
                (ap (λ xs. get_elem? xs e) (sym (ap D.ends l.graph ∙ ends)) ∙ found)) [
                  | inl old ↦
                      let (ra, rb) = v.in_range e a b old in
                      (omega (arith, ap length ws), omega (arith, ap length ws))
                  | inr (_, same) ↦ (
                    omega (arith, ap length ws, ap (λ x. x.0) same),
                    omega (arith, ap length ws, ap (λ x. x.1) same),
                  )
                ];
          once = once;
          outgoing = outgoing;
          incoming = incoming;
          queue = l.queue;
          queued = queued;
        }
