-- ===== src/Tests/Flow.antt =====
-- `propagate` at a concrete input: node 0 points to node 1, and a direct edge leads from 0 to 1.
use rupta_fork.Base.{
  ℕ, Option, ◌^◌, ◌<◌, ◌≡◌, refl, sym, subst, ◌∙◌, [], ◌∷◌, Bool, true, false, none, some, arith,
  ℕ_discrete,
}
use mathlib.Core.Option
use rupta_fork.PtData.DiffPtData
use rupta_fork.PtData.DiffPtData.{DiffPtData}
use rupta_fork.PtData.DiffPtData.View.{points_to, new-IsStored, points_to-new}
use rupta_fork.PtData.DiffPtData.Edits.{Adds, add_pts-Adds}
use rupta_fork.HybridSet.Laws.{hybrid_points_to_set}
use rupta_fork.HybridSet.{HybridSet}
use rupta_fork.Pag.{Pag, direct_edge}
use rupta_fork.Pag.Ops.{node_path}
use rupta_fork.Propagator.{Propagator, PtrTypes, EdgeFilter, propagate}
use rupta_fork.Propagator.Handlers.{add_direct_edge, add_direct_edge-unguarded}
use rupta_fork.Pag.Ops
use rupta_fork.Pag.Empty.{new-IsValid}
use rupta_fork.Propagator.Filters.{stack_filter_pred}
use rupta_fork.Propagator.Concluded.{Propagates}
use rupta_fork.Propagator.Propagate.{propagate-Propagates}
use rupta_fork.Base.HashMap
use rupta_fork.StackFilter.{get_container_func_of_edge, add_pag_edge_in_func}
use rupta_fork.StackFilter.Naive.{Filter, IsFiltered}
use rupta_fork.Propagator.Stops.{func_filter, stack_filter_pred-stops}
use rupta_fork.Tests.Alive.{filter, filtered, callee-filter, info, slot, slot_owner}
use rupta_fork.Tests.Graphs.{vec, graph}
use rupta_fork.Tests.Assign.{assigns, start, numbers}

abbrev types : PtrTypes Bool
types = record {
  equivalent_ptr_types = λ a b. true;
  get_dereferenced_type = λ a. a;
  is_trait = λ a. false;
  equal_types = λ a b. true;
}

-- The stack filter, by which edge 0 is in function 8, and path `i` is a local variable of
-- function 7, which calls it.
abbrev in_callee : Filter ℕ_discrete ℕ_discrete graph vec hybrid_points_to_set ℕ ℕ
in_callee = add_pag_edge_in_func hybrid_points_to_set filter 0 8

abbrev filtering :
    EdgeFilter ℕ (Option (Filter ℕ_discrete ℕ_discrete graph vec hybrid_points_to_set ℕ ℕ))
filtering = func_filter ℕ_discrete ℕ_discrete graph vec hybrid_points_to_set info slot

in_callee-IsFiltered : IsFiltered ℕ_discrete ℕ_discrete graph vec hybrid_points_to_set in_callee
unfolding add_pag_edge_in_func
in_callee-IsFiltered = record { graph = filtered.3.graph; relation = filtered.3.relation }

inside : get_container_func_of_edge hybrid_points_to_set in_callee 0 ≡ some 8
unfolding get_container_func_of_edge add_pag_edge_in_func
inside = HashMap.get-insert_self ℕ_discrete filter.pag_edge_to_func 0 8

answered : (b : Bool) × (filtering.stack_filter_pred (some in_callee) 0 4 ≡ some b)
unfolding add_pag_edge_in_func
answered =
    let (b, run, _) =
      stack_filter_pred-stops ℕ_discrete ℕ_discrete graph vec hybrid_points_to_set info slot
        in_callee in_callee-IsFiltered 0 8 1 4 inside callee-filter (slot_owner 4) in
    (b, run)

abbrev Filters : Type 0
Filters = Option (Filter ℕ_discrete ℕ_discrete graph vec hybrid_points_to_set ℕ ℕ)

abbrev flowing : Pag ℕ assigns.Graph vec.Vec ℕ
flowing = record start {
  graph = record {
    nodes = record { path = 3 } ∷ record { path = 4 } ∷ [];
    edges = ((0, 1), record { kind = direct_edge }) ∷ [];
  };
}

stored_one :
    Adds hybrid_points_to_set ℕ_discrete DiffPtData.new
      (new-IsStored hybrid_points_to_set ℕ_discrete)
      0
      1
      (DiffPtData.add_pts hybrid_points_to_set ℕ_discrete DiffPtData.new 0 1)
stored_one =
    add_pts-Adds hybrid_points_to_set ℕ_discrete DiffPtData.new
      (new-IsStored hybrid_points_to_set ℕ_discrete) 0 1 (omega arith)

abbrev state : Propagator ℕ assigns.Graph vec.Vec ℕ HybridSet Filters
state = record {
  pag = flowing;
  pt_data = (DiffPtData.add_pts hybrid_points_to_set ℕ_discrete DiffPtData.new 0 1).0;
  worklist = [];
  stack_filter = some in_callee;
}

only_one : (x : ℕ) → points_to hybrid_points_to_set ℕ_discrete state.pt_data 0 x ≡ true → x ≡ 1
only_one x h =
    ground
      (arith, sym (stored_one.holds 0 x) ∙ h, points_to-new hybrid_points_to_set ℕ_discrete 0 x)

node_of_1 : node_path ℕ_discrete assigns vec state.pag 1 ≡ some 4
unfolding node_path
node_of_1 = refl

node_of_0 : node_path ℕ_discrete assigns vec state.pag 0 ≡ some 3
unfolding node_path
node_of_0 = refl

known_one :
    (x : ℕ)
    → points_to hybrid_points_to_set ℕ_discrete state.pt_data 0 x ≡ true
    → (x < 2 ^ 64)
      × (path : ℕ) × (node_path ℕ_discrete assigns vec state.pag x ≡ some path)
      × (b : Bool) × (filtering.stack_filter_pred (some in_callee) 0 path ≡ some b)
known_one x h = (
  subst (λ y. y < 2 ^ 64) (sym (only_one x h)) (omega arith),
  4,
  subst (λ y. node_path ℕ_discrete assigns vec state.pag y ≡ some 4) (sym (only_one x h)) node_of_1,
  answered.0,
  answered.1,
)

propagate-Propagates_example :
    (t : Propagator ℕ assigns.Graph vec.Vec ℕ HybridSet Filters) × (propagate ℕ_discrete assigns vec
        numbers types filtering hybrid_points_to_set state 0 false
      ≡ some t)
    × Propagates ℕ_discrete assigns vec numbers types filtering hybrid_points_to_set state 0 0 1 3 4
        false t
propagate-Propagates_example =
    propagate-Propagates ℕ_discrete assigns vec numbers types filtering hybrid_points_to_set state 0
      0 1 3 4 false stored_one.stored refl node_of_0 node_of_1 known_one

abbrev unconnected : Propagator ℕ assigns.Graph vec.Vec ℕ HybridSet Filters
unconnected = record state { pag = start }

add_direct_edge-unguarded_example :
    add_direct_edge ℕ_discrete assigns vec numbers types filtering hybrid_points_to_set unconnected
      3 4
    ≡ Option.map
        (λ (r : Option ℕ × Pag ℕ assigns.Graph vec.Vec ℕ). (r.0, record unconnected { pag = r.1 }))
        (Ops.add_direct_edge ℕ_discrete assigns vec start 3 4)
add_direct_edge-unguarded_example =
    add_direct_edge-unguarded ℕ_discrete assigns vec numbers types filtering hybrid_points_to_set
      unconnected (new-IsValid ℕ ℕ_discrete assigns vec) 3 4

-- The same without a stack filter.
abbrev unfiltered : Propagator ℕ assigns.Graph vec.Vec ℕ HybridSet Filters
unfiltered = record state { stack_filter = none }
