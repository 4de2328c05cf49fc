-- ===== src/HybridSet/Correct.antt =====
-- The operations of the hybrid set as the operations on sets of indices that they stand for,
-- whatever the representations: the elements, the flag, and the invariant kept.
use rupta_fork.Base.{ℕ, ◌≡◌, ◌==◌, ◌&&◌, ◌||◌, not}
use rupta_fork.HybridSet.{HybridSet, contains, insert, remove, union, subtract}
use rupta_fork.HybridSet.Valid.{IsIndex, IsValid, Reports}
use rupta_fork.HybridSet.Insert.{contains-insert, insert_changed, insert-IsValid}
use rupta_fork.HybridSet.Remove.{contains-remove, remove_changed, remove-IsValid}
use rupta_fork.HybridSet.Union.{contains-union, union-Reports, union-IsValid}
use rupta_fork.HybridSet.Subtract.{contains-subtract, subtract-Reports, subtract-IsValid}

-- For valid sets in any of the four pairs of representations, `union` gives a valid set that
-- holds exactly the elements of both, and its flag is down exactly when the elements of the
-- first set stay as they were.
pub union_lem :
    (s t : HybridSet)
    → IsValid s
    → IsValid t
    → ((x : ℕ) → contains (union s t).0 x ≡ (contains s x || contains t x))
      × Reports s (union s t)
      × IsValid (union s t).0
union_lem s t v w = (contains-union s t, union-Reports s t v w, union-IsValid s t v w)

-- For valid sets in any of the four pairs of representations, `subtract` gives a valid set that
-- holds exactly the elements of the first that the second lacks, and its flag is down exactly
-- when the elements of the first set stay as they were.
pub subtract_lem :
    (s t : HybridSet)
    → IsValid s
    → IsValid t
    → ((x : ℕ) → contains (subtract s t).0 x ≡ (contains s x && not (contains t x)))
      × Reports s (subtract s t)
      × IsValid (subtract s t).0
subtract_lem s t v w =
    ((λ x. contains-subtract s t x w), subtract-Reports s t v w, subtract-IsValid s t v w)

-- For an index and a valid set, small, full or large, `insert` gives a valid set with the
-- element and the old ones, and its flag says whether the element is new.
pub insert_lem :
    (s : HybridSet) (e : ℕ)
    → IsIndex e
    → IsValid s
    → ((x : ℕ) → contains (insert s e).0 x ≡ (x == e || contains s x))
      × ((insert s e).1 ≡ not (contains s e))
      × IsValid (insert s e).0
insert_lem s e h v = (contains-insert s e, insert_changed s e, insert-IsValid s e h v)

-- For a valid set, `remove` gives a valid set with the old elements but the one removed, and
-- its flag says whether that one was there.
pub remove_lem :
    (s : HybridSet) (e : ℕ)
    → IsValid s
    → ((x : ℕ) → contains (remove s e).0 x ≡ (not (x == e) && contains s x))
      × ((remove s e).1 ≡ contains s e)
      × IsValid (remove s e).0
remove_lem s e v = ((λ x. contains-remove s e x v), remove_changed s e v, remove-IsValid s e v)
