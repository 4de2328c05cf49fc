-- ===== src/HybridSet/Laws.antt =====
-- `impl PointsToSet for HybridPointsToSet`: the interface filled by `HybridSet`.
use rupta_fork.PtsSet.{PointsToSet}
use rupta_fork.HybridSet
use rupta_fork.HybridSet.{HybridSet}
use rupta_fork.HybridSet.Valid
use rupta_fork.HybridSet.Insert
use rupta_fork.HybridSet.Remove
use rupta_fork.HybridSet.Union
use rupta_fork.HybridSet.Subtract
use rupta_fork.HybridSet.Queries

abbrev pub hybrid_points_to_set : PointsToSet
hybrid_points_to_set = record {
  Set = HybridSet;
  IsValid = Valid.IsValid;
  new = HybridSet.new;
  clear = HybridSet.clear;
  contains = HybridSet.contains;
  insert = HybridSet.insert;
  remove = HybridSet.remove;
  union = HybridSet.union;
  subtract = HybridSet.subtract;
  to_list = HybridSet.to_list;
  new-IsValid = Queries.new-IsValid;
  clear-IsValid = Queries.clear-IsValid;
  insert-IsValid = Insert.insert-IsValid;
  remove-IsValid = Remove.remove-IsValid;
  union-IsValid = Union.union-IsValid;
  subtract-IsValid = Subtract.subtract-IsValid;
  contains-new = Queries.contains-new;
  contains-clear = Queries.contains-clear;
  contains-insert = Insert.contains-insert;
  insert_changed = Insert.insert_changed;
  contains-remove = Remove.contains-remove;
  remove_changed = Remove.remove_changed;
  contains-union = Union.contains-union;
  union_changed = Union.union-Reports;
  contains-subtract = Subtract.contains-subtract;
  has-to_list = Queries.has-to_list;
}
