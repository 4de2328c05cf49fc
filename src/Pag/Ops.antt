-- ===== src/Pag/Ops.antt =====
-- The operations of src/graph/pag.rs on nodes and edges.
use rupta_fork.Base.{
  ℕ, List, [], ◌∷◌, Bool, false, ◌||◌, Option, none, some, if◌then◌else◌, ℕ_discrete,
}
use mathlib.Core.Option
use rupta_fork.Base.HashMap
use rupta_fork.Base.HashSet
use rupta_fork.Petgraph.{DiGraph}
use rupta_fork.ChunkedQueue.{ArrayVec, Cursor, chunk_cap}
use rupta_fork.ChunkedQueue
use rupta_fork.Pag.{
  Pag, PagNode, PagEdge, PagEdgeEnum, addr_edge, direct_edge, load_edge, store_edge, gep_edge,
  cast_edge, offset_edge, PagEdgeEnum-discrete, new_node,
}
use rupta_fork.Pag.Kinds.{EdgeClass, addr, direct, load, store, gep, cast, offset, linked}

module _ {P : Type 0} (D : DiGraph (PagNode P) PagEdge) where
  -- `for edge in edges { if &edge.weight().kind == kind { return true } }`
  unfoldable pub any_kind : D.Graph → List ℕ → PagEdgeEnum → Bool
  any_kind graph [] kind = false
  any_kind graph (edge_id ∷ edges) kind =
      elim (D.edge_weight graph edge_id) as (λ _. Bool) [
        | none ↦ false
        | some edge ↦ HashSet.same PagEdgeEnum-discrete edge.kind kind
      ]
      || any_kind graph edges kind

module _ {P Fp : Type 0} (dec : Discrete P) (D : DiGraph (PagNode P) PagEdge)
    (V : ArrayVec ℕ chunk_cap) where
  unfoldable pub new : Pag P D.Graph V.Vec Fp
  new = record {
    graph = D.new;
    values = [];
    func_pags = [];
    promoted_funcs_map = [];
    involved_static_funcs_map = [];
    addr_edges_queue = ChunkedQueue.new V;
    addr_in_edges = [];
    addr_out_edges = [];
    direct_in_edges = [];
    direct_out_edges = [];
    load_in_edges = [];
    load_out_edges = [];
    store_in_edges = [];
    store_out_edges = [];
    gep_in_edges = [];
    gep_out_edges = [];
    cast_in_edges = [];
    cast_out_edges = [];
    offset_in_edges = [];
    offset_out_edges = [];
  }

  unfoldable pub addr_edge_iter : Pag P D.Graph V.Vec Fp → Cursor
  addr_edge_iter g = ChunkedQueue.iter_copied V g.addr_edges_queue

  unfoldable pub node_path : Pag P D.Graph V.Vec Fp → ℕ → Option P
  node_path g node_id = Option.map (λ (node : PagNode P). node.path) (D.node_weight g.graph node_id)

  unfoldable pub get_node : Pag P D.Graph V.Vec Fp → ℕ → Option (PagNode P)
  get_node g node_id = D.node_weight g.graph node_id

  unfoldable pub get_node_id : Pag P D.Graph V.Vec Fp → P → Option ℕ
  get_node_id g path = HashMap.get dec g.values path

  unfoldable pub get_edge : Pag P D.Graph V.Vec Fp → ℕ → Option PagEdge
  get_edge g edge_id = D.edge_weight g.graph edge_id

  unfoldable pub get_func_pag : Pag P D.Graph V.Vec Fp → ℕ → Option Fp
  get_func_pag g func_id = HashMap.get ℕ_discrete g.func_pags func_id

  unfoldable pub add_node : Pag P D.Graph V.Vec Fp → P → Pag P D.Graph V.Vec Fp
  unfolding new_node
  add_node g path = elim (HashMap.get dec g.values path) [
    | some _ ↦ g
    | none ↦
        let (graph, node_id) = D.add_node g.graph (new_node path) in
        record g { graph = graph; values = HashMap.insert dec g.values path node_id }
  ]

  unfoldable pub get_or_insert_node : Pag P D.Graph V.Vec Fp → P → ℕ × Pag P D.Graph V.Vec Fp
  unfolding new_node
  get_or_insert_node g path = elim (HashMap.get dec g.values path) [
    | some node_id ↦ (node_id, g)
    | none ↦
        let (graph, node_id) = D.add_node g.graph (new_node path) in
        (node_id, record g { graph = graph; values = HashMap.insert dec g.values path node_id })
  ]

  unfoldable pub contains_edge : Pag P D.Graph V.Vec Fp → ℕ → ℕ → PagEdgeEnum → Bool
  unfolding any_kind
  contains_edge g src dst kind = any_kind D g.graph (D.edges_connecting g.graph src dst) kind

  unfoldable pub has_edge : Pag P D.Graph V.Vec Fp → P → P → PagEdgeEnum → Bool
  unfolding contains_edge
  has_edge g src dst kind = elim (HashMap.get dec g.values src) [
    | none ↦ false
    | some src_id ↦ elim (HashMap.get dec g.values dst) [
      | none ↦ false
      | some dst_id ↦ contains_edge g src_id dst_id kind
    ]
  ]

  -- What is written for a new edge: its two maps, and the queue of the address edges.
  unfoldable pub link :
      EdgeClass → Pag P D.Graph V.Vec Fp → ℕ → ℕ → ℕ → Option (Pag P D.Graph V.Vec Fp)
  link addr g src_id dst_id edge_id =
      Option.map
        (λ queue. linked addr (record g { addr_edges_queue = queue }) src_id dst_id edge_id)
        (ChunkedQueue.push V g.addr_edges_queue edge_id)
  link c g src_id dst_id edge_id = some (linked c g src_id dst_id edge_id)

  -- The body that the seven functions share: the edge's number, where it is new.
  unfoldable pub add_edge_of :
      EdgeClass
      → Pag P D.Graph V.Vec Fp
      → P
      → P
      → PagEdgeEnum
      → Option (Option ℕ × Pag P D.Graph V.Vec Fp)
  unfolding get_or_insert_node contains_edge link
  add_edge_of c g src dst kind =
      let (src_id, with_src) = get_or_insert_node g src in
      let (dst_id, with_dst) = get_or_insert_node with_src dst in
      if contains_edge with_dst src_id dst_id kind
      then some (none, with_dst)
      else Option.bind (D.add_edge with_dst.graph src_id dst_id (record { kind = kind }))
          (λ (added : D.Graph × ℕ).
            Option.map (λ (r : Pag P D.Graph V.Vec Fp). (some added.1, r))
              (link c (record with_dst { graph = added.0 }) src_id dst_id added.1))

  unfoldable pub add_addr_edge :
      Pag P D.Graph V.Vec Fp → P → P → Option (Option ℕ × Pag P D.Graph V.Vec Fp)
  unfolding add_edge_of
  add_addr_edge g src dst = add_edge_of addr g src dst addr_edge

  unfoldable pub add_direct_edge :
      Pag P D.Graph V.Vec Fp → P → P → Option (Option ℕ × Pag P D.Graph V.Vec Fp)
  unfolding add_edge_of
  add_direct_edge g src dst = add_edge_of direct g src dst direct_edge

  unfoldable pub add_load_edge :
      Pag P D.Graph V.Vec Fp → P → P → PagEdgeEnum → Option (Option ℕ × Pag P D.Graph V.Vec Fp)
  unfolding add_edge_of
  add_load_edge g src dst kind = add_edge_of load g src dst kind

  unfoldable pub add_store_edge :
      Pag P D.Graph V.Vec Fp → P → P → PagEdgeEnum → Option (Option ℕ × Pag P D.Graph V.Vec Fp)
  unfolding add_edge_of
  add_store_edge g src dst kind = add_edge_of store g src dst kind

  unfoldable pub add_gep_edge :
      Pag P D.Graph V.Vec Fp → P → P → PagEdgeEnum → Option (Option ℕ × Pag P D.Graph V.Vec Fp)
  unfolding add_edge_of
  add_gep_edge g src dst kind = add_edge_of gep g src dst kind

  unfoldable pub add_cast_edge :
      Pag P D.Graph V.Vec Fp → P → P → Option (Option ℕ × Pag P D.Graph V.Vec Fp)
  unfolding add_edge_of
  add_cast_edge g src dst = add_edge_of cast g src dst cast_edge

  unfoldable pub add_offset_edge :
      Pag P D.Graph V.Vec Fp → P → P → Option (Option ℕ × Pag P D.Graph V.Vec Fp)
  unfolding add_edge_of
  add_offset_edge g src dst = add_edge_of offset g src dst offset_edge

  unfoldable pub add_edge :
      Pag P D.Graph V.Vec Fp → P → P → PagEdgeEnum → Option (Option ℕ × Pag P D.Graph V.Vec Fp)
  unfolding add_addr_edge add_direct_edge add_load_edge add_store_edge add_gep_edge add_cast_edge
      add_offset_edge
  add_edge g src dst addr_edge = add_addr_edge g src dst
  add_edge g src dst direct_edge = add_direct_edge g src dst
  add_edge g src dst (load_edge p) = add_load_edge g src dst (load_edge p)
  add_edge g src dst (store_edge p) = add_store_edge g src dst (store_edge p)
  add_edge g src dst (gep_edge p) = add_gep_edge g src dst (gep_edge p)
  add_edge g src dst cast_edge = add_cast_edge g src dst
  add_edge g src dst offset_edge = add_offset_edge g src dst
