-- ===== src/Tests/Instances.antt =====
-- The crates that the program calls, as concrete functions: a vector and a graph as their lists.
use rupta_fork.Base.{
  ℕ, zero, suc, ◌+◌, ◌<◌, ◌≡◌, refl, sym, subst, ap, ◌∙◌, List, [], ◌∷◌, ◌++◌, map, true, ◌&&◌,
  ◌==◌, Option, none, some, leb, ltb, if◌then◌else◌, length, get_elem?, has, arith, ℕ_discrete,
}
use mathlib.Core.Bool.{false≢true}
use mathlib.Core.List.{map-append}
use mathlib.Core.Option.{none-ne-some, some-injective}
use rupta_fork.ChunkedQueue.{ArrayVec}
use rupta_fork.Petgraph.{DiGraph}

-- An `ArrayVec` that is its list.
abbrev push_below : {A : Type 0} → ℕ → List A → A → Option (List A)
push_below cap v a = if leb cap (length v) then none else some (v ++ a ∷ [])

pub push_below-room :
    {A : Type 0} (cap : ℕ) (v : List A) (a : A)
    → length v < cap
    → push_below cap v a ≡ some (v ++ a ∷ [])
push_below-room cap v a h = ground arith

abbrev pub list_array_vec : {A : Type 0} (cap : ℕ) → ArrayVec A cap
list_array_vec {A = A} cap = record {
  Vec = List A;
  new = [];
  len = length;
  is_full = λ v. leb cap (length v);
  push = push_below cap;
  get = get_elem?;
  items = λ v. v;
  items-new = refl;
  len-items = λ v. refl;
  is_full-items = λ v. refl;
  push-items = λ v a h. (v ++ a ∷ [], push_below-room cap v a h, refl);
  get-items = λ v i. refl;
}

pub record ListGraph (N E : Type 0) : Type 0 where
  pub nodes : List N
  pub edges : List ((ℕ × ℕ) × E)

-- The targets of the edges out of a node, and the numbers, from `k` on, of those between two.
abbrev targets : {E : Type 0} → List ((ℕ × ℕ) × E) → ℕ → List ℕ
targets [] a = []
targets (((x, y), e) ∷ es) a = if x == a then y ∷ targets es a else targets es a

abbrev between : {E : Type 0} → List ((ℕ × ℕ) × E) → ℕ → ℕ → ℕ → List ℕ
between [] a b k = []
between (((x, y), e) ∷ es) a b k =
    if x == a && y == b then k ∷ between es a b (suc k) else between es a b (suc k)

pair_eq : {x y a b : ℕ} → x ≡ a → y ≡ b → ◌≡◌ {A = Option (ℕ × ℕ)} (some (x, y)) (some (a, b))
pair_eq p q = λ i. some (p i, q i)

pub length-map : {A B : Type 0} (f : A → B) (xs : List A) → length (map f xs) ≡ length xs
length-map f [] = refl
length-map f (x ∷ xs) = ap suc (length-map f xs)

module _ {E : Type 0} where
  abbrev ends : List ((ℕ × ℕ) × E) → List (ℕ × ℕ)
  ends es = map (λ (e : (ℕ × ℕ) × E). e.0) es

  pub has-targets :
      (es : List ((ℕ × ℕ) × E)) (a b : ℕ)
      → has (targets es a) b ≡ true
      → (e : ℕ) × (get_elem? (ends es) e ≡ some (a, b))
  has-targets [] a b h = absurd (false≢true h)
  has-targets (((x, y), l) ∷ es) a b h = elim (ℕ_discrete x a) [
    | yes e ↦ elim (ℕ_discrete y b) [
      | yes f ↦ (0, pair_eq e f)
      | no nf ↦ let (i, found) = has-targets es a b (ground arith) in (suc i, found)
    ]
    | no ne ↦ let (i, found) = has-targets es a b (ground arith) in (suc i, found)
  ]

  pub targets-has :
      (es : List ((ℕ × ℕ) × E)) (a b e : ℕ)
      → get_elem? (ends es) e ≡ some (a, b)
      → has (targets es a) b ≡ true
  targets-has [] a b e h = absurd (none-ne-some {A = ℕ × ℕ} (a, b) h)
  targets-has (((x, y), l) ∷ es) a b zero h =
      ground (arith, some-injective {A = ℕ × ℕ} (x, y) (a, b) h)
  targets-has (((x, y), l) ∷ es) a b (suc e) h = ground (arith, targets-has es a b e h)

  has-between :
      (es : List ((ℕ × ℕ) × E)) (a b k e : ℕ)
      → has (between es a b k) e ≡ true
      → (i : ℕ) × (e ≡ k + i) × (get_elem? (ends es) i ≡ some (a, b))
  has-between [] a b k e h = absurd (false≢true h)
  has-between (((x, y), l) ∷ es) a b k e h = elim (ℕ_discrete x a) [
    | yes xa ↦ elim (ℕ_discrete y b) [
      | yes yb ↦ elim (ℕ_discrete k e) [
        | yes here ↦ (0, omega arith, pair_eq xa yb)
        | no ne ↦
            let (i, at, found) = has-between es a b (suc k) e (ground arith) in
            (suc i, omega arith, found)
      ]
      | no nf ↦
          let (i, at, found) = has-between es a b (suc k) e (ground arith) in
          (suc i, omega arith, found)
    ]
    | no ne ↦
        let (i, at, found) = has-between es a b (suc k) e (ground arith) in
        (suc i, omega arith, found)
  ]

  pub between-has :
      (es : List ((ℕ × ℕ) × E)) (a b k i : ℕ)
      → get_elem? (ends es) i ≡ some (a, b)
      → has (between es a b k) (k + i) ≡ true
  between-has [] a b k i h = absurd (none-ne-some {A = ℕ × ℕ} (a, b) h)
  between-has (((x, y), l) ∷ es) a b k zero h =
      ground (arith, some-injective {A = ℕ × ℕ} (x, y) (a, b) h)
  between-has (((x, y), l) ∷ es) a b k (suc i) h =
      let rest = between-has es a b (suc k) i h in
      let same : suc k + i ≡ k + suc i = omega arith in
      ground (arith, ap (has (between es a b (suc k))) same)

  pub between-ends :
      (es : List ((ℕ × ℕ) × E)) (a b e : ℕ)
      → has (between es a b 0) e ≡ true
      → get_elem? (ends es) e ≡ some (a, b)
  between-ends es a b e h =
      let (i, at, found) = has-between es a b 0 e h in
      let same : i ≡ e = omega arith in ap (get_elem? (ends es)) (sym same) ∙ found

  pub ends-between :
      (es : List ((ℕ × ℕ) × E)) (a b e : ℕ)
      → get_elem? (ends es) e ≡ some (a, b)
      → has (between es a b 0) e ≡ true
  ends-between es a b e h =
      let same : 0 + e ≡ e = omega arith in
      subst (λ n. has (between es a b 0) n ≡ true) same (between-has es a b 0 e h)

module _ {N E : Type 0} where
  abbrev connect : ListGraph N E → ℕ → ℕ → E → Option (ListGraph N E × ℕ)
  connect g a b e =
      if ltb a (length g.nodes) && ltb b (length g.nodes)
      then some (record g { edges = g.edges ++ ((a, b), e) ∷ [] }, length g.edges)
      else none

  pub connect_lem :
      (g : ListGraph N E) (a b : ℕ) (e : E)
      → a < length g.nodes
      → b < length g.nodes
      → (h : ListGraph N E) × (connect g a b e ≡ some (h, length (ends g.edges)))
        × (h.nodes ≡ g.nodes)
        × (ends h.edges ≡ (ends g.edges ++ (a, b) ∷ []))
  connect_lem g a b e ha hb =
      let h : ListGraph N E = record g { edges = g.edges ++ ((a, b), e) ∷ [] } in
      let inside : (ltb a (length g.nodes) && ltb b (length g.nodes)) ≡ true = ground arith in
      (
        h,
        rw inside
            (ap (λ (n : ℕ). some (h, n)) (sym (length-map (λ (d : (ℕ × ℕ) × E). d.0) g.edges))),
        refl,
        map-append (λ (d : (ℕ × ℕ) × E). d.0) g.edges (((a, b), e) ∷ []),
      )

  pub connect-labels :
      (g h : ListGraph N E) (a b i : ℕ) (e : E)
      → connect g a b e ≡ some (h, i)
      → map (λ (d : (ℕ × ℕ) × E). d.1) h.edges ≡ (map (λ (d : (ℕ × ℕ) × E). d.1) g.edges ++ e ∷ [])
  connect-labels g h a b i e made =
      let same : h.edges ≡ g.edges ++ ((a, b), e) ∷ [] = ground arith in
      ap (map (λ (d : (ℕ × ℕ) × E). d.1)) same
      ∙ map-append (λ (d : (ℕ × ℕ) × E). d.1) g.edges (((a, b), e) ∷ [])

abbrev pub list_graph : (N E : Type 0) → DiGraph N E
list_graph N E = record {
  Graph = ListGraph N E;
  new = record { nodes = []; edges = [] };
  node_count = λ g. length g.nodes;
  add_node = λ g n. (record g { nodes = g.nodes ++ n ∷ [] }, length g.nodes);
  add_edge = connect;
  node_weight = λ g i. get_elem? g.nodes i;
  edge_endpoints = λ g e. get_elem? (ends g.edges) e;
  edge_weight = λ g e. get_elem? (map (λ (d : (ℕ × ℕ) × E). d.1) g.edges) e;
  edges_connecting = λ g a b. between g.edges a b 0;
  neighbors = λ g a. targets g.edges a;
  weights = λ g. g.nodes;
  ends = λ g. ends g.edges;
  labels = λ g. map (λ (d : (ℕ × ℕ) × E). d.1) g.edges;
  weights-new = refl;
  ends-new = refl;
  labels-new = refl;
  length-labels = λ g.
      length-map (λ (d : (ℕ × ℕ) × E). d.1) g.edges
      ∙ sym (length-map (λ (d : (ℕ × ℕ) × E). d.0) g.edges);
  node_count-weights = λ g. refl;
  node_weight-weights = λ g i. refl;
  edge_endpoints-ends = λ g e. refl;
  edge_weight-labels = λ g e. refl;
  edges_connecting-ends = λ g a b e. (between-ends g.edges a b e, ends-between g.edges a b e);
  neighbors-ends = λ g a b. (has-targets g.edges a b, λ h. targets-has g.edges a b h.0 h.1);
  add_node-number = λ g n. refl;
  add_node-weights = λ g n. refl;
  add_node-ends = λ g n. refl;
  add_node-labels = λ g n. refl;
  add_edge_lem = connect_lem;
  add_edge-labels = connect-labels;
}
