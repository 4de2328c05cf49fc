-- ===== src/HybridSet.antt =====
-- The points-to set of src/pts_set/points_to.rs: `HybridSet`, an explicit array for small sets and
-- a bit vector for large ones. `HybridPointsToSet` wraps one of these and passes every call on.
-- An operation on `&mut self` returns the new set beside its result. Capacities of a `Vec` are not
-- modelled: they do not change what it holds.
pub mod Vec
pub mod Loop
pub mod Valid
pub mod Insert
pub mod Remove
pub mod Union
pub mod Subtract
pub mod Intersect
pub mod Queries
pub mod Laws
pub mod Correct
use rupta_fork.Base.{
  ℕ, zero, suc, ◌+◌, List, [], ◌∷◌, Bool, true, false, not, ◌||◌, Option, none, some, ltb, ◌==◌,
  if◌then◌else◌, length, all, has,
}
use rupta_fork.BitVec
use rupta_fork.BitVec.{BitVec, BitIter}
use Vec.{push, position, swap_remove, retain}
use Loop.{each}

abbrev pub small_set_capacity : ℕ
small_set_capacity = 32

pub data HybridSet : Type 0 where
  small_set : List ℕ → HybridSet
  large_set : BitVec → HybridSet

unfoldable pub new : HybridSet
new = small_set []

unfoldable pub clear : HybridSet → HybridSet
clear (small_set small) = small_set []
clear (large_set large) = small_set []

unfoldable pub count : HybridSet → ℕ
count (small_set small) = length small
count (large_set large) = BitVec.count large

unfoldable pub contains : HybridSet → ℕ → Bool
contains (small_set small) elem = has small elem
contains (large_set large) elem = BitVec.contains large elem

unfoldable pub is_empty : HybridSet → Bool
is_empty (small_set []) = true
is_empty (small_set (x ∷ small)) = false
is_empty (large_set large) = BitVec.is_empty large

pub data HybridIter : Type 0 where
  small_iter : List ℕ → HybridIter
  large_iter : BitIter → HybridIter

unfoldable pub iter : HybridSet → HybridIter
iter (small_set small) = small_iter small
iter (large_set large) = large_iter (BitVec.iter large)

unfoldable pub next : HybridIter → Option ℕ × HybridIter
next (small_iter []) = (none, small_iter [])
next (small_iter (x ∷ rest)) = (some x, small_iter rest)
next (large_iter large) = let (item, rest) = BitVec.next large in (item, large_iter rest)

-- What a loop over the iterator sees, for at most as many rounds as the fuel.
unfoldable pub collect : ℕ → HybridIter → List ℕ
unfolding next
collect zero it = []
collect (suc fuel) it =
    let (item, it') = next it in elim item [ none ↦ [] | some x ↦ x ∷ collect fuel it' ]

-- `count` says how often `next` yields.
unfoldable pub to_list : HybridSet → List ℕ
unfolding collect iter count
to_list s = collect (count s + 1) (iter s)

-- The test of `superset` by iteration.
unfoldable pub contains_all : HybridSet → HybridSet → Bool
unfolding to_list contains
contains_all s other = all (contains s) (to_list other)

unfoldable pub superset : HybridSet → HybridSet → Bool
unfolding contains_all
superset (large_set self_large) (large_set other_large) = BitVec.superset self_large other_large
superset (large_set self_large) (small_set other) =
    contains_all (large_set self_large) (small_set other)
superset (small_set self_small) other = contains_all (small_set self_small) other

-- A small set that is full becomes a large one.
unfoldable pub insert_full : List ℕ → ℕ → HybridSet × Bool
insert_full small elem =
    let large = BitVec.from_loop BitVec.new_empty small in
    let (large', changed) = BitVec.insert large elem in (large_set large', changed)

unfoldable pub insert : HybridSet → ℕ → HybridSet × Bool
unfolding insert_full push
insert (small_set small) elem =
    if has small elem
    then (small_set small, false)
    else if ltb (length small) small_set_capacity
    then (small_set (push small elem), true)
    else insert_full small elem
insert (large_set large) elem =
    let (large', changed) = BitVec.insert large elem in (large_set large', changed)

unfoldable pub remove : HybridSet → ℕ → HybridSet × Bool
unfolding position swap_remove
remove (small_set small) elem = elim (position small elem) [
  | none ↦ (small_set small, false)
  | some pos ↦ (small_set (swap_remove small pos), true)
]
remove (large_set large) elem =
    let (large', changed) = BitVec.remove large elem in (large_set large', changed)

abbrev on_large : BitVec × Bool → HybridSet × Bool
on_large r = (large_set r.0, r.1)

abbrev on_small : List ℕ × Bool → HybridSet × Bool
on_small r = (small_set r.0, r.1)

unfoldable pub union : HybridSet → HybridSet → HybridSet × Bool
unfolding insert each
union (large_set self_large) (large_set other_large) =
    on_large (BitVec.union self_large other_large)
union (large_set self_large) (small_set other_small) =
    on_large (each BitVec.insert self_large other_small false)
union (small_set self_small) (large_set other_large) =
    on_large (BitVec.union (BitVec.from_loop BitVec.new_empty self_small) other_large)
union (small_set self_small) (small_set other_small) =
    each insert (small_set self_small) other_small false

unfoldable pub subtract : HybridSet → HybridSet → HybridSet × Bool
unfolding each retain contains
subtract (large_set self_large) (large_set other_large) =
    on_large (BitVec.subtract self_large other_large)
subtract (large_set self_large) (small_set other_small) =
    on_large (each BitVec.remove self_large other_small false)
subtract (small_set self_small) other =
    on_small (retain (λ elem. not (contains other elem)) self_small)

unfoldable pub intersect : HybridSet → HybridSet → HybridSet × Bool
unfolding retain contains
intersect (large_set self_large) (large_set other_large) =
    on_large (BitVec.intersect self_large other_large)
intersect (large_set self_large) (small_set other_small) =
    on_small (retain (λ elem. BitVec.contains self_large elem) other_small)
intersect (small_set self_small) other = on_small (retain (λ elem. contains other elem) self_small)
