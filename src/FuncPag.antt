-- ===== src/FuncPag.antt =====
-- src/graph/func_pag.rs: the pointer assignment graph of one function, as the builder fills it.
-- `P` is a path and `C` a call site; `none` is a panic of the queue.
pub mod Edges
use rupta_fork.Base.{ℕ, List, [], ◌∷◌, ◌++◌, Option}
use mathlib.Core.Option
use rupta_fork.Base.HashSet
use rupta_fork.ChunkedQueue.{ArrayVec, ChunkedQueue, Cursor, chunk_cap}
use rupta_fork.ChunkedQueue
use rupta_fork.Pag.{PagEdgeEnum}

abbrev pub InternalEdge : Type 0 → Type 0
InternalEdge P = P × P × PagEdgeEnum

pub record FuncPag (P C V : Type 0) : Type 0 where
  pub func_id : ℕ
  pub internal_edges : ChunkedQueue V
  pub static_variables_involved : List P
  pub static_dispatch_callsites : List (C × ℕ)
  pub special_callsites : List (C × ℕ)
  pub dynamic_dispatch_callsites : List (P × C)
  pub dynamic_fntrait_callsites : List (P × C)
  pub fnptr_callsites : List (P × C)

module _ {P C : Type 0} (V : ArrayVec (InternalEdge P) chunk_cap) where
  unfoldable pub new : ℕ → FuncPag P C V.Vec
  new func_id = record {
    func_id = func_id;
    internal_edges = ChunkedQueue.new V;
    static_variables_involved = [];
    static_dispatch_callsites = [];
    special_callsites = [];
    dynamic_dispatch_callsites = [];
    dynamic_fntrait_callsites = [];
    fnptr_callsites = [];
  }

  unfoldable pub add_internal_edge :
      FuncPag P C V.Vec → P → P → PagEdgeEnum → Option (FuncPag P C V.Vec)
  add_internal_edge f src dst kind =
      Option.map (λ queue. record f { internal_edges = queue })
        (ChunkedQueue.push V f.internal_edges (src, dst, kind))

  unfoldable pub internal_edges_iter : FuncPag P C V.Vec → Cursor
  internal_edges_iter f = ChunkedQueue.iter V f.internal_edges

  unfoldable pub add_static_variables_involved :
      Discrete P → FuncPag P C V.Vec → P → FuncPag P C V.Vec
  add_static_variables_involved dec f static_variable = record f {
    static_variables_involved = HashSet.insert dec f.static_variables_involved static_variable;
  }

  unfoldable pub add_static_dispatch_callsite : FuncPag P C V.Vec → C → ℕ → FuncPag P C V.Vec
  add_static_dispatch_callsite f callsite callee = record f {
    static_dispatch_callsites = f.static_dispatch_callsites ++ (callsite, callee) ∷ [];
  }

  unfoldable pub add_dynamic_fntrait_callsite : FuncPag P C V.Vec → P → C → FuncPag P C V.Vec
  add_dynamic_fntrait_callsite f dynamic_fn_obj std_ops_callsite = record f {
    dynamic_fntrait_callsites =
        f.dynamic_fntrait_callsites ++ (dynamic_fn_obj, std_ops_callsite) ∷ [];
  }

  unfoldable pub add_dynamic_dispatch_callsite : FuncPag P C V.Vec → P → C → FuncPag P C V.Vec
  add_dynamic_dispatch_callsite f dynamic_obj dyn_callsite = record f {
    dynamic_dispatch_callsites = f.dynamic_dispatch_callsites ++ (dynamic_obj, dyn_callsite) ∷ [];
  }

  unfoldable pub add_fnptr_callsite : FuncPag P C V.Vec → P → C → FuncPag P C V.Vec
  add_fnptr_callsite f fn_ptr callsite = record f {
    fnptr_callsites = f.fnptr_callsites ++ (fn_ptr, callsite) ∷ [];
  }

  unfoldable pub add_special_callsite : FuncPag P C V.Vec → C → ℕ → FuncPag P C V.Vec
  add_special_callsite f callsite callee = record f {
    special_callsites = f.special_callsites ++ (callsite, callee) ∷ [];
  }
