-- ===== src/Lib.antt =====
-- rupta is a pointer analysis for Rust programs. This library models the data structures that its
-- solver computes with, the calling contexts it distinguishes, the paths that name memory, the
-- graphs, the filter for objects on the stack, and the flow of points-to data over edges.
--
-- The parts and their files, with paths from the root of the repository:
--   * BitVec: src/util/bit_vec.rs. `BitVec` is the list of its 64-bit words, `BitIter` its
--     iterator. A method on `&mut self` returns the new vector beside its result. Bits holds the
--     arithmetic of one bit of a word.
--   * HybridSet and PtsSet: src/pts_set/points_to.rs. `HybridSet` is a list of at most 32 elements
--     or a bit vector. `PointsToSet` is the trait, as operations and laws; HybridSet/Laws fills it.
--   * PtData: src/pts_set/pt_data.rs. `DiffPtData` keeps two sets for each key, over any
--     `PointsToSet`. The solver adds to the first and `flush` moves it to the second. `BasePtData`
--     keeps one set for each key, and the reverse map.
--   * Context: src/mir/context.rs. `Context` is a list of elements, the newest first;
--     `ContextCache` numbers contexts.
--   * CallSite: src/mir/call_site.rs, and the identifiers of src/mir/function.rs.
--   * Strategy: src/pta/strategies/context_strategy.rs. A strategy picks the context of a callee,
--     by way of `Context`, from the call site or the receiver.
--   * MirPath: src/mir/path.rs. `PathEnum` is a path. Create and Project are the functions on
--     paths, Contexts the versions for a path with a context; Valid is the invariant that the
--     assertions protect.
--   * ChunkedQueue: src/util/chunked_queue.rs. The chunks stand in a store and a pointer is an
--     index into it; Chain and Push hold the invariant, Iterate and Growing the iterators.
--   * Petgraph and CallGraph: src/graph/call_graph.rs over the crate petgraph. A new function goes
--     into the queue of reachable functions, which the analyses read by an iterator.
--   * Reach: the reachability relation of src/pta/strategies/stack_filtering.rs, a matrix with one
--     row for each function node; its rows are lists of flags or bit vectors.
--   * FuncReach: the search of the same file that fills the relation from a call graph, one
--     function after the other or in parallel, which is a loop over the nodes in any order.
--   * StackFilter: the filter of the same file, which asks the relation, and the call chains of
--     contexts, whether an object in a function's frame may be alive.
--   * Pag: src/graph/pag.rs, the pointer assignment graph: its nodes, the seven kinds of edges with
--     their fourteen maps and the queue of address edges (Ops), and the edges that a call adds
--     (Direct). Pag/Valid has the invariant, Pag/Added and Pag/Calls the theorems. The seven
--     functions such as `add_addr_edge` share one body, which is written once. The trait `PAGPath`
--     and the types that the analysis context gives are the parameter `PagPath`.
--   * FuncPag: src/graph/func_pag.rs, the graph of one function that the builder fills.
--   * Propagator: src/pta/propagator/propagator.rs, over Pag and PtData: how points-to data flows
--     over an edge. `PtrTypes` is what it asks of types, `EdgeFilter` what it asks of the stack
--     filter; Filters gives the latter for StackFilter, Stops says what it stops in the analysis
--     without contexts. Passing and Propagate hold the proofs.
--   * Base: shared names, tests on numbers, lists, and the maps and sets of the standard library
--     as association lists and lists.
--   * Tests: the theorems at concrete inputs; Tests/Instances has the crates as concrete functions.
--
-- Indices are natural numbers; where the code needs a `usize`, the bound 2^64 is in the invariant.
-- A loop over an iterator runs on fuel (`collect`, `drain`): `to_list` of a bit vector has a round
-- for each of its bits and one to stop, `to_list` of a hybrid set and a loop over a queue a round
-- for each element and one to stop. The search of FuncReach has a round for each edge out of its
-- start, one for each edge out of a node, since a node is expanded once, and one to stop. `next`
-- of a bit vector is structural recursion on the words, that of a queue takes at most one link.
--
-- `IndexVec` of the crate rustc_index, `ArrayVec` of arrayvec and `Graph` of petgraph are
-- parameters with their documented laws; `DefId`, `Location` and what the compiler knows of a
-- function are parameters with none. `Rc` is not modelled, since nothing shared is mutated. Not
-- modelled: printing, the index tree, which nothing uses, the casts and the resolved
-- calls of the propagation, the loops of the solver and the analyses over it, and all that calls
-- the compiler.
mod Base
mod Tests
pub mod Bits
pub mod BitVec
pub mod HybridSet
pub mod PtsSet
pub mod PtData
pub mod Context
pub mod CallSite
pub mod Strategy
pub mod Reach
pub mod MirPath
pub mod Petgraph
pub mod ChunkedQueue
pub mod CallGraph
pub mod Pag
pub mod FuncPag
pub mod Propagator
pub mod FuncReach
pub mod StackFilter
