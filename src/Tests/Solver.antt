-- ===== src/Tests/Solver.antt =====
-- The theorems on the differential points-to data at concrete inputs.
use rupta_fork.Base.{ℕ, Bool, arith, ℕ_discrete}
use rupta_fork.HybridSet
use rupta_fork.HybridSet.{HybridSet}
use rupta_fork.HybridSet.Valid.{IsValid}
use rupta_fork.HybridSet.Insert.{insert-IsValid}
use rupta_fork.HybridSet.Queries
use rupta_fork.HybridSet.Laws.{hybrid_points_to_set}
use rupta_fork.PtData.DiffPtData
use rupta_fork.PtData.DiffPtData.{DiffPtData}
use rupta_fork.PtData.DiffPtData.View.{points_to, IsStored, new-IsStored}
use rupta_fork.PtData.DiffPtData.Keys.{Unites, union_pts-Unites}
use rupta_fork.PtData.DiffPtData.Flush.{Flushes, flush-Flushes}
use rupta_fork.PtData.DiffPtData.Edits.{Adds, add_pts-Adds}

-- Node 2 points to object 5, still to be propagated.
abbrev added : DiffPtData ℕ HybridSet × Bool
added = DiffPtData.add_pts hybrid_points_to_set ℕ_discrete DiffPtData.new 2 5

added-Adds :
    Adds hybrid_points_to_set ℕ_discrete DiffPtData.new
      (new-IsStored hybrid_points_to_set ℕ_discrete)
      2
      5
      added
added-Adds =
    add_pts-Adds hybrid_points_to_set ℕ_discrete DiffPtData.new
      (new-IsStored hybrid_points_to_set ℕ_discrete) 2 5 (omega arith)

added-IsStored : IsStored hybrid_points_to_set ℕ_discrete added.0
added-IsStored = added-Adds.stored

abbrev objects : HybridSet
objects = (HybridSet.insert HybridSet.new 9).0

objects-IsValid : IsValid objects
objects-IsValid = insert-IsValid HybridSet.new 9 (omega arith) Queries.new-IsValid

add_pts-Adds_example :
    Adds hybrid_points_to_set ℕ_discrete added.0 added-IsStored 2 5
      (DiffPtData.add_pts hybrid_points_to_set ℕ_discrete added.0 2 5)
add_pts-Adds_example =
    add_pts-Adds hybrid_points_to_set ℕ_discrete added.0 added-IsStored 2 5 (omega arith)

union_pts-Unites_example :
    Unites hybrid_points_to_set ℕ_discrete added.0 1
      (points_to hybrid_points_to_set ℕ_discrete added.0 2)
      (DiffPtData.union_pts hybrid_points_to_set ℕ_discrete added.0 1 2)
union_pts-Unites_example =
    union_pts-Unites hybrid_points_to_set ℕ_discrete added.0 1 2 added-IsStored

flush-Flushes_example :
    Flushes hybrid_points_to_set ℕ_discrete added.0 added-IsStored 2
      (DiffPtData.flush hybrid_points_to_set ℕ_discrete added.0 2)
flush-Flushes_example = flush-Flushes hybrid_points_to_set ℕ_discrete added.0 added-IsStored 2
