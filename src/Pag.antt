-- ===== src/Pag.antt =====
-- src/graph/pag.rs: the pointer assignment graph. `Graph` of the crate petgraph is the parameter
-- `DiGraph`, `P` a path with decidable equality. A node and an edge are their numbers, a `BTreeSet`
-- of edges is their ascending list, and `none` is a panic. The calls of the function builder, which
-- visits the compiler's bodies, are not modelled.
pub mod Kinds
pub mod Ops
pub mod Valid
pub mod Nodes
pub mod Links
pub mod Fresh
pub mod Grown
pub mod AddEdge
pub mod Added
pub mod Empty
pub mod Direct
pub mod Connects
pub mod Calls
use rupta_fork.Base.{ℕ, ◌+◌, List, [], ◌∷◌, Bool, true, false, Option, none, some, ℕ_discrete}
use mathlib.Core.Option
use rupta_fork.Base.HashMap
use rupta_fork.Base.HashSet
use rupta_fork.Base.BTreeSet
use rupta_fork.Petgraph.{DiGraph}
use rupta_fork.ChunkedQueue.{ArrayVec, ChunkedQueue, Cursor, chunk_cap}
use rupta_fork.ChunkedQueue
use rupta_fork.MirPath.{ProjectionElems, PathSelector-discrete}
use mathlib.Core.List.{List-discrete}

pub record PagNode (P : Type 0) : Type 0 where
  pub path : P

unfoldable pub new_node : {P : Type 0} → P → PagNode P
new_node path = record { path = path }

pub data PagEdgeEnum : Type 0 where
  addr_edge : PagEdgeEnum
  direct_edge : PagEdgeEnum
  load_edge : ProjectionElems → PagEdgeEnum
  store_edge : ProjectionElems → PagEdgeEnum
  gep_edge : ProjectionElems → PagEdgeEnum
  cast_edge : PagEdgeEnum
  offset_edge : PagEdgeEnum

pub record PagEdge : Type 0 where
  pub kind : PagEdgeEnum

-- The equality that `#[derive(PartialEq)]` gives.
pub ProjectionElems-discrete : Discrete ProjectionElems
ProjectionElems-discrete = List-discrete PathSelector-discrete

pub PagEdgeEnum-discrete : Discrete PagEdgeEnum
PagEdgeEnum-discrete = hlevel ProjectionElems-discrete

abbrev pub EdgeMap : Type 0
EdgeMap = List (ℕ × List ℕ)

-- `G` is the graph, `V` the vectors of the queue's chunks and `Fp` a function's graph.
pub record Pag (P G V Fp : Type 0) : Type 0 where
  pub graph : G
  pub values : List (P × ℕ)
  pub func_pags : List (ℕ × Fp)
  pub promoted_funcs_map : List (ℕ × List ℕ)
  pub involved_static_funcs_map : List (ℕ × List ℕ)
  pub addr_edges_queue : ChunkedQueue V
  pub addr_in_edges : EdgeMap
  pub addr_out_edges : EdgeMap
  pub direct_in_edges : EdgeMap
  pub direct_out_edges : EdgeMap
  pub load_in_edges : EdgeMap
  pub load_out_edges : EdgeMap
  pub store_in_edges : EdgeMap
  pub store_out_edges : EdgeMap
  pub gep_in_edges : EdgeMap
  pub gep_out_edges : EdgeMap
  pub cast_in_edges : EdgeMap
  pub cast_out_edges : EdgeMap
  pub offset_in_edges : EdgeMap
  pub offset_out_edges : EdgeMap

-- `map.entry(node_id).or_default().insert(edge)`
unfoldable pub add_to : EdgeMap → ℕ → ℕ → EdgeMap
add_to m node_id edge =
    HashMap.insert ℕ_discrete m node_id
      (BTreeSet.insert (HashMap.get_or_default ℕ_discrete m node_id []) edge)

module _ {P G V Fp : Type 0} where
  unfoldable pub add_incoming_addr_edge : Pag P G V Fp → ℕ → ℕ → Pag P G V Fp
  unfolding add_to
  add_incoming_addr_edge g node_id in_edge = record g {
    addr_in_edges = add_to g.addr_in_edges node_id in_edge;
  }

  unfoldable pub add_outgoing_addr_edge : Pag P G V Fp → ℕ → ℕ → Pag P G V Fp
  unfolding add_to
  add_outgoing_addr_edge g node_id out_edge = record g {
    addr_out_edges = add_to g.addr_out_edges node_id out_edge;
  }

  unfoldable pub add_incoming_direct_edge : Pag P G V Fp → ℕ → ℕ → Pag P G V Fp
  unfolding add_to
  add_incoming_direct_edge g node_id in_edge = record g {
    direct_in_edges = add_to g.direct_in_edges node_id in_edge;
  }

  unfoldable pub add_outgoing_direct_edge : Pag P G V Fp → ℕ → ℕ → Pag P G V Fp
  unfolding add_to
  add_outgoing_direct_edge g node_id out_edge = record g {
    direct_out_edges = add_to g.direct_out_edges node_id out_edge;
  }

  unfoldable pub add_incoming_load_edge : Pag P G V Fp → ℕ → ℕ → Pag P G V Fp
  unfolding add_to
  add_incoming_load_edge g node_id in_edge = record g {
    load_in_edges = add_to g.load_in_edges node_id in_edge;
  }

  unfoldable pub add_outgoing_load_edge : Pag P G V Fp → ℕ → ℕ → Pag P G V Fp
  unfolding add_to
  add_outgoing_load_edge g node_id out_edge = record g {
    load_out_edges = add_to g.load_out_edges node_id out_edge;
  }

  unfoldable pub add_incoming_store_edge : Pag P G V Fp → ℕ → ℕ → Pag P G V Fp
  unfolding add_to
  add_incoming_store_edge g node_id in_edge = record g {
    store_in_edges = add_to g.store_in_edges node_id in_edge;
  }

  unfoldable pub add_outgoing_store_edge : Pag P G V Fp → ℕ → ℕ → Pag P G V Fp
  unfolding add_to
  add_outgoing_store_edge g node_id out_edge = record g {
    store_out_edges = add_to g.store_out_edges node_id out_edge;
  }

  unfoldable pub add_incoming_gep_edge : Pag P G V Fp → ℕ → ℕ → Pag P G V Fp
  unfolding add_to
  add_incoming_gep_edge g node_id in_edge = record g {
    gep_in_edges = add_to g.gep_in_edges node_id in_edge;
  }

  unfoldable pub add_outgoing_gep_edge : Pag P G V Fp → ℕ → ℕ → Pag P G V Fp
  unfolding add_to
  add_outgoing_gep_edge g node_id out_edge = record g {
    gep_out_edges = add_to g.gep_out_edges node_id out_edge;
  }

  unfoldable pub add_incoming_cast_edge : Pag P G V Fp → ℕ → ℕ → Pag P G V Fp
  unfolding add_to
  add_incoming_cast_edge g node_id in_edge = record g {
    cast_in_edges = add_to g.cast_in_edges node_id in_edge;
  }

  unfoldable pub add_outgoing_cast_edge : Pag P G V Fp → ℕ → ℕ → Pag P G V Fp
  unfolding add_to
  add_outgoing_cast_edge g node_id out_edge = record g {
    cast_out_edges = add_to g.cast_out_edges node_id out_edge;
  }

  unfoldable pub add_incoming_offset_edge : Pag P G V Fp → ℕ → ℕ → Pag P G V Fp
  unfolding add_to
  add_incoming_offset_edge g node_id in_edge = record g {
    offset_in_edges = add_to g.offset_in_edges node_id in_edge;
  }

  unfoldable pub add_outgoing_offset_edge : Pag P G V Fp → ℕ → ℕ → Pag P G V Fp
  unfolding add_to
  add_outgoing_offset_edge g node_id out_edge = record g {
    offset_out_edges = add_to g.offset_out_edges node_id out_edge;
  }
