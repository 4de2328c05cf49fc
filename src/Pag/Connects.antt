-- ===== src/Pag/Connects.antt =====
-- Direct edges between pairs of paths: what a run that adds them leaves.
use rupta_fork.Base.{
  ℕ, suc, ◌≤◌, ◌≡◌, refl, sym, ap, ◌∙◌, List, [], ◌∷◌, ◌++◌, Bool, true, false, ◌&&◌, ◌||◌, some,
  if◌then◌else◌, leb, ltb, length, has, arith, has-append,
}
use rupta_fork.Base.HashMap
use rupta_fork.Petgraph.{DiGraph}
use rupta_fork.ChunkedQueue.{ArrayVec, chunk_cap}
use rupta_fork.Pag.{Pag, PagNode, PagEdge, PagEdgeEnum, direct_edge}
use rupta_fork.Pag.Ops.{has_edge}
use rupta_fork.Pag.Valid.{IsValid}
use rupta_fork.Pag.AddEdge.{is_asked, AddsEdge}

-- A direct edge between one of the pairs.
unfoldable pub is_pair : {P : Type 0} → Discrete P → List (P × P) → P → P → PagEdgeEnum → Bool
is_pair dec [] x y k = false
is_pair dec ((src, dst) ∷ pairs) x y k =
    is_asked dec src dst direct_edge x y k || is_pair dec pairs x y k

or_assoc : (a b c : Bool) → ((a || b) || c) ≡ (a || (b || c))
or_assoc true b c = refl
or_assoc false b c = refl

or_swap : (a b c : Bool) → (a || (b || c)) ≡ (b || (a || c))
or_swap true true c = refl
or_swap true false c = refl
or_swap false true c = refl
or_swap false false c = refl

pub is_pair-append :
    {P : Type 0} (dec : Discrete P) (ps qs : List (P × P)) (x y : P) (k : PagEdgeEnum)
    → is_pair dec (ps ++ qs) x y k ≡ (is_pair dec ps x y k || is_pair dec qs x y k)
unfolding is_pair
is_pair-append dec [] qs x y k = refl
is_pair-append dec ((src, dst) ∷ ps) qs x y k =
    ap (λ t. is_asked dec src dst direct_edge x y k || t) (is_pair-append dec ps qs x y k)
    ∙ sym (
        or_assoc (is_asked dec src dst direct_edge x y k) (is_pair dec ps x y k)
          (is_pair dec qs x y k))

-- The numbers from `a` on, below `b`.
abbrev pub between : ℕ → ℕ → ℕ → Bool
between a b e = leb a e && ltb e b

between_join : (a b c e : ℕ) → a ≤ b → b ≤ c → (between a b e || between b c e) ≡ between a c e
between_join a b c e h k = ground arith

-- What one edge adds to the numbers: none, or the next.
pub same_range : (n m e : ℕ) (b : Bool) → m ≡ n → b ≡ (b || between n m e)
same_range n m e b h = ground arith

pub next_range :
    (n m e : ℕ) (added : List ℕ)
    → m ≡ suc n
    → has (added ++ n ∷ []) e ≡ (has added e || between n m e)
next_range n m e added h = has-append added (n ∷ []) e ∙ ap (λ t. has added e || t) (alone h)
  where
    alone : m ≡ suc n → has (n ∷ []) e ≡ between n m e
    alone h = ground arith

or_false : (a : Bool) → a ≡ (a || false)
or_false true = refl
or_false false = refl

module _ {P Fp : Type 0} (dec : Discrete P) (D : DiGraph (PagNode P) PagEdge)
    (V : ArrayVec ℕ chunk_cap) where
  -- From `g`, with the edges `added` so far, to `r`, with the edges `all`.
  pub record Connects (pairs : List (P × P)) (g : Pag P D.Graph V.Vec Fp) (added : List ℕ)
      (r : Pag P D.Graph V.Vec Fp) (all : List ℕ) : Type 0 where
    pub valid : IsValid dec D V r
    pub edges :
        (x y : P) (k : PagEdgeEnum)
        → has_edge dec D V r x y k ≡ (is_pair dec pairs x y k || has_edge dec D V g x y k)
    pub kept :
        (p : P) (i : ℕ) → HashMap.get dec g.values p ≡ some i → HashMap.get dec r.values p ≡ some i
    pub grown : length (D.ends g.graph) ≤ length (D.ends r.graph)
    pub answered :
        (e : ℕ)
        → has all e ≡ (has added e || between (length (D.ends g.graph)) (length (D.ends r.graph)) e)

  -- No pairs: nothing is done.
  pub nothing-Connects :
      (g : Pag P D.Graph V.Vec Fp) (added : List ℕ)
      → IsValid dec D V g
      → Connects [] g added g added
  unfolding is_pair
  nothing-Connects g added v = record {
    valid = v;
    edges = λ x y k. refl;
    kept = λ p i found. found;
    grown = omega arith;
    answered = λ e. ground arith;
  }

  -- One pair: what `add_edge` does with it.
  pub one-Connects :
      (src dst : P) (g r : Pag P D.Graph V.Vec Fp) (added all : List ℕ)
      → AddsEdge dec D V g src dst direct_edge r
      → ((e : ℕ)
          → has all e
            ≡ (has added e || between (length (D.ends g.graph)) (length (D.ends r.graph)) e))
      → Connects ((src, dst) ∷ []) g added r all
  unfolding is_pair
  one-Connects src dst g r added all a range = record {
    valid = a.valid;
    edges = λ x y k.
        a.edges x y k
        ∙ ap (λ t. t || has_edge dec D V g x y k)
            (or_false (is_asked dec src dst direct_edge x y k));
    kept = a.kept;
    grown = longer (has_edge dec D V g src dst direct_edge) _ _ a.grown;
    answered = range;
  }
    where
      longer : (b : Bool) (n m : ℕ) → m ≡ (if b then n else suc n) → n ≤ m
      longer true n m h = omega arith
      longer false n m h = omega arith

  -- One run after the other.
  pub then-Connects :
      (ps qs : List (P × P)) (g m r : Pag P D.Graph V.Vec Fp) (a b c : List ℕ)
      → Connects ps g a m b
      → Connects qs m b r c
      → Connects (ps ++ qs) g a r c
  then-Connects ps qs g m r a b c f s = record {
    valid = s.valid;
    edges = λ x y k.
        s.edges x y k
        ∙ ap (λ t. is_pair dec qs x y k || t) (f.edges x y k)
        ∙ or_swap (is_pair dec qs x y k) (is_pair dec ps x y k) (has_edge dec D V g x y k)
        ∙ sym (or_assoc (is_pair dec ps x y k) (is_pair dec qs x y k) (has_edge dec D V g x y k))
        ∙ ap (λ t. t || has_edge dec D V g x y k) (sym (is_pair-append dec ps qs x y k));
    kept = λ p i found. s.kept p i (f.kept p i found);
    grown = omega (arith, f.grown, s.grown);
    answered = λ e.
        s.answered e
        ∙ ap (λ t. t || between (length (D.ends m.graph)) (length (D.ends r.graph)) e)
            (f.answered e)
        ∙ or_assoc (has a e) _ _
        ∙ ap (λ t. has a e || t)
            (between_join (length (D.ends g.graph)) (length (D.ends m.graph))
              (length (D.ends r.graph)) e f.grown s.grown);
  }

  -- A run of its own, whose edges are put behind those added before.
  pub behind-Connects :
      (ps : List (P × P)) (g r : Pag P D.Graph V.Vec Fp) (a b : List ℕ)
      → Connects ps g [] r b
      → Connects ps g a r (a ++ b)
  behind-Connects ps g r a b f = record {
    valid = f.valid;
    edges = f.edges;
    kept = f.kept;
    grown = f.grown;
    answered = λ e. has-append a b e ∙ ap (λ t. has a e || t) (f.answered e);
  }
