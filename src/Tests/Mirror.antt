-- ===== src/Tests/Mirror.antt =====
-- The theorems on the basic points-to data at concrete inputs.
use rupta_fork.Base.{ℕ, ◌≡◌, Bool, some, arith, ℕ_discrete}
use rupta_fork.HybridSet.{HybridSet}
use rupta_fork.HybridSet.Laws.{hybrid_points_to_set}
use rupta_fork.PtData.BasePtData
use rupta_fork.PtData.BasePtData.{BasePtData}
use rupta_fork.PtData.BasePtData.Correct.{
  in_pts, IsMirrored, new-IsMirrored, add_pts-IsMirrored, Joins, union_pts-Joins,
}
use rupta_fork.PtData.BasePtData.Removal.{Clears, clear_pts-Clears}

-- Node 2 points to object 5.
abbrev added : BasePtData ℕ HybridSet × Bool
added = BasePtData.add_pts hybrid_points_to_set ℕ_discrete BasePtData.new 2 5

added-IsMirrored : IsMirrored hybrid_points_to_set ℕ_discrete added.0
added-IsMirrored =
    (add_pts-IsMirrored hybrid_points_to_set ℕ_discrete BasePtData.new 2 5
      (new-IsMirrored hybrid_points_to_set ℕ_discrete) (omega arith)).0

union_pts-Joins_example :
    Joins hybrid_points_to_set ℕ_discrete added.0 1
      (in_pts hybrid_points_to_set ℕ_discrete added.0 2)
      (BasePtData.union_pts hybrid_points_to_set ℕ_discrete added.0 1 2)
union_pts-Joins_example =
    union_pts-Joins hybrid_points_to_set ℕ_discrete added.0 1 2 added-IsMirrored

clear_pts-Clears_example :
    (r : BasePtData ℕ HybridSet) × (BasePtData.clear_pts hybrid_points_to_set ℕ_discrete added.0 2
      ≡ some r)
    × Clears hybrid_points_to_set ℕ_discrete added.0 added-IsMirrored 2 r
clear_pts-Clears_example =
    clear_pts-Clears hybrid_points_to_set ℕ_discrete added.0 added-IsMirrored 2
