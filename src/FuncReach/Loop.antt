-- ===== src/FuncReach/Loop.antt =====
-- The worklist loop: it ends without a panic, with exactly the nodes that the start reaches marked.
use rupta_fork.Base.{
  ℕ, zero, suc, ◌+◌, ◌<◌, ◌≡◌, ◌↔◌, refl, sym, ap, ◌∙◌, List, [], ◌∷◌, Bool, true, false, ◌||◌,
  ◌==◌, Option, some, length, has, arith, ℕ_discrete, Bool-cases, inl, inr,
}
use mathlib.Core.Option
use mathlib.Core.Bool.{false≢true}
use rupta_fork.FuncReach.{push_all, search, out_edges}
use rupta_fork.FuncReach.Paths.{Reaches, call, over, pending, pending-mark, pending-le}

pub length-push_all : (wl ns : List ℕ) → length (push_all wl ns) ≡ length ns + length wl
unfolding push_all
length-push_all wl [] = omega arith
length-push_all wl (n ∷ ns) = omega (arith, length-push_all (n ∷ wl) ns)

pub has-push_all : (wl ns : List ℕ) (j : ℕ) → has (push_all wl ns) j ≡ (has ns j || has wl j)
unfolding push_all
has-push_all wl [] j = refl
has-push_all wl (n ∷ ns) j = ground (arith, has-push_all (n ∷ wl) ns j)

-- A store of marks on the nodes below `n`, with the two operations of the loop.
pub record Marks (S : Type 0) (contains : S → ℕ → Option Bool) (insert : S → ℕ → Option S) (n : ℕ)
    : Type 1 where
  pub IsStore : S → Type 0
  pub reads : S → ℕ → Bool
  pub contains-reads : (s : S) (i : ℕ) → IsStore s → i < n → contains s i ≡ some (reads s i)
  pub insert-reads :
      (s : S) (i : ℕ)
      → IsStore s
      → i < n
      → (s' : S) × (insert s i ≡ some s')
        × IsStore s'
        × ((j : ℕ) → reads s' j ≡ (j == i || reads s j))

module _ {S : Type 0} (contains : S → ℕ → Option Bool) (insert : S → ℕ → Option S)
    (neighbors : ℕ → List ℕ) (n : ℕ) (M : Marks S contains insert n) (func : ℕ)
    (in_range : (i j : ℕ) → has (neighbors i) j ≡ true → j < n) where
  -- What holds before each round.
  record Inv (s : S) (wl : List ℕ) : Type 0 where
    store : M.IsStore s
    waiting : (j : ℕ) → has wl j ≡ true → Reaches neighbors func j
    bounded : (j : ℕ) → has wl j ≡ true → j < n
    sound : (j : ℕ) → M.reads s j ≡ true → Reaches neighbors func j
    start : (j : ℕ) → has (neighbors func) j ≡ true → (M.reads s j || has wl j) ≡ true
    closed :
        (i j : ℕ)
        → M.reads s i ≡ true
        → has (neighbors i) j ≡ true
        → (M.reads s j || has wl j) ≡ true

  -- What the loop is to give.
  pub record Found (s : S) : Type 0 where
    pub store : M.IsStore s
    pub exact : (j : ℕ) → (M.reads s j ≡ true) ↔ Reaches neighbors func j

  found : (s : S) → Inv s [] → Found s
  found s v = record { store = v.store; exact = λ j. (v.sound j, complete j) }
    where
      complete : (j : ℕ) → Reaches neighbors func j → M.reads s j ≡ true
      complete j (call h) = ground (arith, v.start j h)
      complete j (over {c} r h) = ground (arith, v.closed c j (complete c r) h)

  -- A node that is marked already is passed over.
  Inv-skip : (s : S) (x : ℕ) (wl : List ℕ) → Inv s (x ∷ wl) → M.reads s x ≡ true → Inv s wl
  Inv-skip s x wl v seen = record {
    store = v.store;
    waiting = λ j h. v.waiting j (ground (arith, h));
    bounded = λ j h. v.bounded j (ground (arith, h));
    sound = v.sound;
    start = λ j h. left j (v.start j h);
    closed = λ i j m h. left j (v.closed i j m h);
  }
    where
      left : (j : ℕ) → (M.reads s j || has (x ∷ wl) j) ≡ true → (M.reads s j || has wl j) ≡ true
      left j h = elim (ℕ_discrete x j) [
        | yes e ↦ ground (arith, ap (M.reads s) e, seen)
        | no ne ↦ ground (arith, h)
      ]

  -- A new node is marked, and its neighbors wait.
  Inv-mark :
      (s s' : S) (x : ℕ) (wl : List ℕ)
      → Inv s (x ∷ wl)
      → M.IsStore s'
      → ((j : ℕ) → M.reads s' j ≡ (j == x || M.reads s j))
      → Inv s' (push_all wl (neighbors x))
  Inv-mark s s' x wl v st marked = record {
    store = st;
    waiting = λ j h. elim (Bool-cases (has (neighbors x) j)) [
      | inl next ↦ over (v.waiting x (ground arith)) next
      | inr old ↦ v.waiting j (ground (arith, h, has-push_all wl (neighbors x) j))
    ];
    bounded = λ j h. elim (Bool-cases (has (neighbors x) j)) [
      | inl next ↦ in_range x j next
      | inr old ↦ v.bounded j (ground (arith, h, has-push_all wl (neighbors x) j))
    ];
    sound = λ j h. elim (ℕ_discrete j x) [
      | yes e ↦ v.waiting j (ground (arith, e))
      | no ne ↦ v.sound j (ground (arith, h, marked j))
    ];
    start = λ j h. ground (arith, v.start j h, marked j, has-push_all wl (neighbors x) j);
    closed = λ i j m h. elim (ℕ_discrete i x) [
      | yes e ↦
          ground
            (arith, h, ap (λ k. has (neighbors k) j) e, marked j, has-push_all wl (neighbors x) j)
      | no ne ↦ ground (
        arith,
        v.closed i j (ground (arith, m, marked i)) h,
        marked j,
        has-push_all wl (neighbors x) j,
      )
    ];
  }

  search_lem :
      (fuel : ℕ) (s : S) (wl : List ℕ)
      → Inv s wl
      → length wl + pending neighbors (M.reads s) n < fuel
      → (r : S) × (search contains insert neighbors fuel s wl ≡ some r) × Found r
  unfolding search Option.bind
  search_lem zero s wl v enough = absurd (omega arith)
  search_lem (suc fuel) s [] v enough = (s, refl, found s v)
  search_lem (suc fuel) s (x ∷ wl) v enough =
      let lt = v.bounded x (ground arith) in
      elim (Bool-cases (M.reads s x)) [
        | inl seen ↦
            let (r, done, f) =
              search_lem fuel s wl (Inv-skip s x wl v seen) (omega (arith, enough)) in
            (r, rw (M.contains-reads s x v.store lt ∙ ap some seen, search) done, f)
        | inr fresh ↦
            let (s', written, st, marked) = M.insert-reads s x v.store lt in
            let (r, done, f) =
              search_lem fuel s' (push_all wl (neighbors x)) (Inv-mark s s' x wl v st marked) (
                omega (
                  arith,
                  enough,
                  length-push_all wl (neighbors x),
                  pending-mark neighbors (M.reads s) (M.reads s') x n marked fresh lt,
                )) in
            (r, rw (M.contains-reads s x v.store lt ∙ ap some fresh, search) (rw written done), f)
      ]

  -- The whole search, from a store with no mark.
  pub search-Found :
      (s : S) (fuel : ℕ)
      → M.IsStore s
      → ((j : ℕ) → M.reads s j ≡ false)
      → length (neighbors func) + out_edges neighbors n < fuel
      → (r : S) × (search contains insert neighbors fuel s (push_all [] (neighbors func)) ≡ some r)
        × Found r
  search-Found s fuel st none_yet enough =
      search_lem fuel s (push_all [] (neighbors func))
        (record {
          store = st;
          waiting = λ j h. call (ground (arith, h, has-push_all [] (neighbors func) j));
          bounded = λ j h. in_range func j (ground (arith, h, has-push_all [] (neighbors func) j));
          sound = λ j h. absurd (false≢true (sym (none_yet j) ∙ h));
          start = λ j h. ground (arith, h, has-push_all [] (neighbors func) j);
          closed = λ i j m h. absurd (false≢true (sym (none_yet i) ∙ m));
        })
        (omega
          (arith, enough, length-push_all [] (neighbors func), pending-le neighbors (M.reads s) n))
