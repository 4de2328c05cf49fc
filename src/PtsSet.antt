-- ===== src/PtsSet.antt =====
-- The trait `PointsToSet` of src/pts_set/points_to.rs as an interface: its operations, and the
-- laws that the code which is generic over the trait relies on. HybridSet/Laws.antt fills it.
use rupta_fork.Base.{ℕ, ◌^◌, ◌<◌, ◌≡◌, ◌↔◌, List, Bool, false, not, ◌&&◌, ◌||◌, ◌==◌, has}

-- An operation returns the set after it, and whether it says that the set has changed. `IsValid`
-- is the invariant of the representation. An element is an index, a `usize`.
pub record PointsToSet : Type 1 where
  pub Set : Type 0
  pub IsValid : Set → Type 0
  pub new : Set
  pub clear : Set → Set
  pub contains : Set → ℕ → Bool
  pub insert : Set → ℕ → Set × Bool
  pub remove : Set → ℕ → Set × Bool
  pub union : Set → Set → Set × Bool
  pub subtract : Set → Set → Set × Bool
  pub to_list : Set → List ℕ
  pub new-IsValid : IsValid new
  pub clear-IsValid : (s : Set) → IsValid (clear s)
  pub insert-IsValid : (s : Set) (e : ℕ) → e < 2 ^ 64 → IsValid s → IsValid (insert s e).0
  pub remove-IsValid : (s : Set) (e : ℕ) → IsValid s → IsValid (remove s e).0
  pub union-IsValid : (s t : Set) → IsValid s → IsValid t → IsValid (union s t).0
  pub subtract-IsValid : (s t : Set) → IsValid s → IsValid t → IsValid (subtract s t).0
  pub contains-new : (x : ℕ) → contains new x ≡ false
  pub contains-clear : (s : Set) (x : ℕ) → contains (clear s) x ≡ false
  pub contains-insert : (s : Set) (e x : ℕ) → contains (insert s e).0 x ≡ (x == e || contains s x)
  pub insert_changed : (s : Set) (e : ℕ) → (insert s e).1 ≡ not (contains s e)
  pub contains-remove :
      (s : Set) (e x : ℕ) → IsValid s → contains (remove s e).0 x ≡ (not (x == e) && contains s x)
  pub remove_changed : (s : Set) (e : ℕ) → IsValid s → (remove s e).1 ≡ contains s e
  pub contains-union :
      (s t : Set) (x : ℕ) → contains (union s t).0 x ≡ (contains s x || contains t x)
  pub union_changed :
      (s t : Set)
      → IsValid s
      → IsValid t
      → ((union s t).1 ≡ false) ↔ ((x : ℕ) → contains (union s t).0 x ≡ contains s x)
  pub contains-subtract :
      (s t : Set) (x : ℕ)
      → IsValid t
      → contains (subtract s t).0 x ≡ (contains s x && not (contains t x))
  pub has-to_list : (s : Set) (x : ℕ) → IsValid s → has (to_list s) x ≡ contains s x
