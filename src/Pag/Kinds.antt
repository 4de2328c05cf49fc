-- ===== src/Pag/Kinds.antt =====
-- The seven kinds of edges of the pointer assignment graph, each with its two maps from a node to
-- its edges, and what is written there for a new edge.
use rupta_fork.Base.{
  ℕ, ◌≡◌, refl, ap, sym, ◌∙◌, List, [], ◌&&◌, ◌||◌, ◌==◌, if◌then◌else◌, has, arith, ℕ_discrete,
}
use rupta_fork.Base.HashMap
use rupta_fork.Base.BTreeSet
use rupta_fork.Pag.{
  Pag, EdgeMap, PagEdgeEnum, addr_edge, direct_edge, load_edge, store_edge, gep_edge, cast_edge,
  offset_edge, add_to, add_incoming_addr_edge, add_outgoing_addr_edge, add_incoming_direct_edge,
  add_outgoing_direct_edge, add_incoming_load_edge, add_outgoing_load_edge, add_incoming_store_edge,
  add_outgoing_store_edge, add_incoming_gep_edge, add_outgoing_gep_edge, add_incoming_cast_edge,
  add_outgoing_cast_edge, add_incoming_offset_edge, add_outgoing_offset_edge,
}

pub data EdgeClass : Type 0 where
  addr direct load store gep cast offset : EdgeClass

abbrev pub class_of : PagEdgeEnum → EdgeClass
class_of addr_edge = addr
class_of direct_edge = direct
class_of (load_edge _) = load
class_of (store_edge _) = store
class_of (gep_edge _) = gep
class_of cast_edge = cast
class_of offset_edge = offset

-- Classes are compared by their numbers.
abbrev pub number : EdgeClass → ℕ
number addr = 0
number direct = 1
number load = 2
number store = 3
number gep = 4
number cast = 5
number offset = 6

class_at : ℕ → EdgeClass
class_at n =
    if n == 0
    then addr
    else if n == 1
    then direct
    else if n == 2
    then load
    else if n == 3
    then store
    else if n == 4
    then gep
    else if n == 5
    then cast
    else offset

class_at-number : (c : EdgeClass) → class_at (number c) ≡ c
unfolding class_at
class_at-number addr = refl
class_at-number direct = refl
class_at-number load = refl
class_at-number store = refl
class_at-number gep = refl
class_at-number cast = refl
class_at-number offset = refl

pub number-injective : (c d : EdgeClass) → number c ≡ number d → c ≡ d
number-injective c d e = sym (class_at-number c) ∙ ap class_at e ∙ class_at-number d

-- The edges of a node in a map.
abbrev pub edges_at : EdgeMap → ℕ → List ℕ
edges_at m node_id = HashMap.get_or_default ℕ_discrete m node_id []

pub edges_at-add_to :
    (m : EdgeMap) (n e k f : ℕ)
    → has (edges_at (add_to m n e) k) f ≡ (n == k && e == f || has (edges_at m k) f)
unfolding add_to
edges_at-add_to m n e k f = elim (ℕ_discrete n k) [
  | yes same ↦ ground (
    arith,
    HashMap.get-insert ℕ_discrete m n k (BTreeSet.insert (edges_at m n) e),
    BTreeSet.has-insert (edges_at m n) e f,
    ap (λ x. has (edges_at m x) f) same,
  )
  | no other ↦
      ground (arith, HashMap.get-insert ℕ_discrete m n k (BTreeSet.insert (edges_at m n) e))
]

module _ {P G V Fp : Type 0} where
  abbrev pub out_of : EdgeClass → Pag P G V Fp → EdgeMap
  out_of addr g = g.addr_out_edges
  out_of direct g = g.direct_out_edges
  out_of load g = g.load_out_edges
  out_of store g = g.store_out_edges
  out_of gep g = g.gep_out_edges
  out_of cast g = g.cast_out_edges
  out_of offset g = g.offset_out_edges

  abbrev pub in_of : EdgeClass → Pag P G V Fp → EdgeMap
  in_of addr g = g.addr_in_edges
  in_of direct g = g.direct_in_edges
  in_of load g = g.load_in_edges
  in_of store g = g.store_in_edges
  in_of gep g = g.gep_in_edges
  in_of cast g = g.cast_in_edges
  in_of offset g = g.offset_in_edges

  -- The graph with a new edge of the kind in its two maps.
  unfoldable pub linked : EdgeClass → Pag P G V Fp → ℕ → ℕ → ℕ → Pag P G V Fp
  linked addr g src dst edge = add_incoming_addr_edge (add_outgoing_addr_edge g src edge) dst edge
  linked direct g src dst edge =
      add_incoming_direct_edge (add_outgoing_direct_edge g src edge) dst edge
  linked load g src dst edge = add_incoming_load_edge (add_outgoing_load_edge g src edge) dst edge
  linked store g src dst edge =
      add_incoming_store_edge (add_outgoing_store_edge g src edge) dst edge
  linked gep g src dst edge = add_incoming_gep_edge (add_outgoing_gep_edge g src edge) dst edge
  linked cast g src dst edge = add_incoming_cast_edge (add_outgoing_cast_edge g src edge) dst edge
  linked offset g src dst edge =
      add_incoming_offset_edge (add_outgoing_offset_edge g src edge) dst edge

  -- Nothing but the two maps of the kind is written.
  pub record Links (c : EdgeClass) (g r : Pag P G V Fp) (src dst edge : ℕ) : Type 0 where
    pub graph : r.graph ≡ g.graph
    pub values : r.values ≡ g.values
    pub queue : r.addr_edges_queue ≡ g.addr_edges_queue
    pub out :
        (d : EdgeClass) (k f : ℕ)
        → has (edges_at (out_of d r) k) f
          ≡ (number c == number d && (src == k && edge == f) || has (edges_at (out_of d g) k) f)
    pub into :
        (d : EdgeClass) (k f : ℕ)
        → has (edges_at (in_of d r) k) f
          ≡ (number c == number d && (dst == k && edge == f) || has (edges_at (in_of d g) k) f)

  linked_out :
      (c d : EdgeClass) (g : Pag P G V Fp) (src dst edge k f : ℕ)
      → has (edges_at (out_of d (linked c g src dst edge)) k) f
        ≡ (number c == number d && (src == k && edge == f) || has (edges_at (out_of d g) k) f)
  unfolding linked add_incoming_addr_edge add_outgoing_addr_edge add_incoming_direct_edge
      add_outgoing_direct_edge add_incoming_load_edge add_outgoing_load_edge add_incoming_store_edge
      add_outgoing_store_edge add_incoming_gep_edge add_outgoing_gep_edge add_incoming_cast_edge
      add_outgoing_cast_edge add_incoming_offset_edge add_outgoing_offset_edge
  linked_out addr addr g src dst edge k f = edges_at-add_to g.addr_out_edges src edge k f
  linked_out direct direct g src dst edge k f = edges_at-add_to g.direct_out_edges src edge k f
  linked_out load load g src dst edge k f = edges_at-add_to g.load_out_edges src edge k f
  linked_out store store g src dst edge k f = edges_at-add_to g.store_out_edges src edge k f
  linked_out gep gep g src dst edge k f = edges_at-add_to g.gep_out_edges src edge k f
  linked_out cast cast g src dst edge k f = edges_at-add_to g.cast_out_edges src edge k f
  linked_out offset offset g src dst edge k f = edges_at-add_to g.offset_out_edges src edge k f
  linked_out _ _ g src dst edge k f = refl

  linked_into :
      (c d : EdgeClass) (g : Pag P G V Fp) (src dst edge k f : ℕ)
      → has (edges_at (in_of d (linked c g src dst edge)) k) f
        ≡ (number c == number d && (dst == k && edge == f) || has (edges_at (in_of d g) k) f)
  unfolding linked add_incoming_addr_edge add_outgoing_addr_edge add_incoming_direct_edge
      add_outgoing_direct_edge add_incoming_load_edge add_outgoing_load_edge add_incoming_store_edge
      add_outgoing_store_edge add_incoming_gep_edge add_outgoing_gep_edge add_incoming_cast_edge
      add_outgoing_cast_edge add_incoming_offset_edge add_outgoing_offset_edge
  linked_into addr addr g src dst edge k f = edges_at-add_to g.addr_in_edges dst edge k f
  linked_into direct direct g src dst edge k f = edges_at-add_to g.direct_in_edges dst edge k f
  linked_into load load g src dst edge k f = edges_at-add_to g.load_in_edges dst edge k f
  linked_into store store g src dst edge k f = edges_at-add_to g.store_in_edges dst edge k f
  linked_into gep gep g src dst edge k f = edges_at-add_to g.gep_in_edges dst edge k f
  linked_into cast cast g src dst edge k f = edges_at-add_to g.cast_in_edges dst edge k f
  linked_into offset offset g src dst edge k f = edges_at-add_to g.offset_in_edges dst edge k f
  linked_into _ _ g src dst edge k f = refl

  linked_graph :
      (c : EdgeClass) (g : Pag P G V Fp) (src dst edge : ℕ)
      → (linked c g src dst edge).graph ≡ g.graph
  unfolding linked add_incoming_addr_edge add_outgoing_addr_edge add_incoming_direct_edge
      add_outgoing_direct_edge add_incoming_load_edge add_outgoing_load_edge add_incoming_store_edge
      add_outgoing_store_edge add_incoming_gep_edge add_outgoing_gep_edge add_incoming_cast_edge
      add_outgoing_cast_edge add_incoming_offset_edge add_outgoing_offset_edge
  linked_graph addr g src dst edge = refl
  linked_graph _ g src dst edge = refl

  linked_values :
      (c : EdgeClass) (g : Pag P G V Fp) (src dst edge : ℕ)
      → (linked c g src dst edge).values ≡ g.values
  unfolding linked add_incoming_addr_edge add_outgoing_addr_edge add_incoming_direct_edge
      add_outgoing_direct_edge add_incoming_load_edge add_outgoing_load_edge add_incoming_store_edge
      add_outgoing_store_edge add_incoming_gep_edge add_outgoing_gep_edge add_incoming_cast_edge
      add_outgoing_cast_edge add_incoming_offset_edge add_outgoing_offset_edge
  linked_values addr g src dst edge = refl
  linked_values _ g src dst edge = refl

  linked_queue :
      (c : EdgeClass) (g : Pag P G V Fp) (src dst edge : ℕ)
      → (linked c g src dst edge).addr_edges_queue ≡ g.addr_edges_queue
  unfolding linked add_incoming_addr_edge add_outgoing_addr_edge add_incoming_direct_edge
      add_outgoing_direct_edge add_incoming_load_edge add_outgoing_load_edge add_incoming_store_edge
      add_outgoing_store_edge add_incoming_gep_edge add_outgoing_gep_edge add_incoming_cast_edge
      add_outgoing_cast_edge add_incoming_offset_edge add_outgoing_offset_edge
  linked_queue addr g src dst edge = refl
  linked_queue _ g src dst edge = refl

  pub linked-Links :
      (c : EdgeClass) (g : Pag P G V Fp) (src dst edge : ℕ)
      → Links c g (linked c g src dst edge) src dst edge
  linked-Links c g src dst edge = record {
    graph = linked_graph c g src dst edge;
    values = linked_values c g src dst edge;
    queue = linked_queue c g src dst edge;
    out = λ d k f. linked_out c d g src dst edge k f;
    into = λ d k f. linked_into c d g src dst edge k f;
  }
