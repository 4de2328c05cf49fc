-- ===== src/Tests/Sets.antt =====
-- The theorems at concrete inputs, with the data they run on.
use rupta_fork.Base.{ℕ, ◌≡◌, ◌↔◌, [], ◌∷◌, not, ◌&&◌, ◌||◌, ◌==◌, arith}
use rupta_fork.BitVec
use rupta_fork.BitVec.{BitVec, word_mod}
use rupta_fork.HybridSet
use rupta_fork.HybridSet.{HybridSet, small_set, large_set}
use rupta_fork.HybridSet.Valid.{IsValid, IsLarge, Reports, converted-IsLarge}
use rupta_fork.HybridSet.Insert.{insert-IsValid}
use rupta_fork.HybridSet.Queries
use rupta_fork.HybridSet.Queries.{has-to_list, to_list-Distinct, length-to_list, superset_iff}
use rupta_fork.HybridSet.Intersect.{
  spared, contains-intersect, HidesLoss, IsCutUnseen, intersect-HidesLoss,
}
use rupta_fork.HybridSet.Correct.{union_lem, subtract_lem, insert_lem, remove_lem}

abbrev bits : BitVec
bits = BitVec.from_loop BitVec.new_empty (1 ∷ 65 ∷ [])

bits-IsLarge : IsLarge bits
bits-IsLarge = converted-IsLarge (1 ∷ 65 ∷ []) (omega arith, (omega arith, tt))

abbrev large : HybridSet
large = large_set bits

abbrev small : HybridSet
small = (HybridSet.insert HybridSet.new 65).0

small-IsValid : IsValid small
small-IsValid = insert-IsValid HybridSet.new 65 (omega arith) Queries.new-IsValid

union_lem_example :
    ((x : ℕ)
      → HybridSet.contains (HybridSet.union small large).0 x
        ≡ (HybridSet.contains small x || HybridSet.contains large x))
    × Reports small (HybridSet.union small large)
    × IsValid (HybridSet.union small large).0
union_lem_example = union_lem small large small-IsValid bits-IsLarge

subtract_lem_example :
    ((x : ℕ)
      → HybridSet.contains (HybridSet.subtract small large).0 x
        ≡ (HybridSet.contains small x && not (HybridSet.contains large x)))
    × Reports small (HybridSet.subtract small large)
    × IsValid (HybridSet.subtract small large).0
subtract_lem_example = subtract_lem small large small-IsValid bits-IsLarge

insert_lem_example :
    ((x : ℕ)
      → HybridSet.contains (HybridSet.insert small 7).0 x ≡ (x == 7 || HybridSet.contains small x))
    × ((HybridSet.insert small 7).1 ≡ not (HybridSet.contains small 7))
    × IsValid (HybridSet.insert small 7).0
insert_lem_example = insert_lem small 7 (omega arith) small-IsValid

remove_lem_example :
    ((x : ℕ)
      → HybridSet.contains (HybridSet.remove large 65).0 x
        ≡ (not (x == 65) && HybridSet.contains large x))
    × ((HybridSet.remove large 65).1 ≡ HybridSet.contains large 65)
    × IsValid (HybridSet.remove large 65).0
remove_lem_example = remove_lem large 65 bits-IsLarge

contains-intersect_example :
    HybridSet.contains (HybridSet.intersect large small).0 1
    ≡ (HybridSet.contains large 1 && (HybridSet.contains small 1 || spared large small 1))
contains-intersect_example = contains-intersect large small 1

intersect-HidesLoss_example : HidesLoss large small ↔ IsCutUnseen large (small_set (65 ∷ []))
unfolding HybridSet.insert HybridSet.new
intersect-HidesLoss_example = intersect-HidesLoss large small bits-IsLarge small-IsValid
