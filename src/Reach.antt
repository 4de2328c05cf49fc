-- ===== src/Reach.antt =====
-- `RowRelation` and `ReachabilityRelation` of src/pta/strategies/stack_filtering.rs: which function
-- nodes of a call graph reach which. `none` stands for a panic.
pub mod Rows
pub mod Relation
use rupta_fork.Base.{
  ℕ, ◌+◌, ◌<◌, ◌≡◌, List, [], ◌∷◌, Bool, true, false, ◌||◌, ◌==◌, Option, none, some, leb, ltb,
  if◌then◌else◌, length, get_elem?, set, resize,
}
use mathlib.Core.Option

-- The trait `RowRelation`, with the laws that `ReachabilityRelation` relies on: a row for n nodes
-- is read and written below n without a panic.
pub record RowRelation : Type 1 where
  pub Row : Type 0
  pub new_empty : Row
  pub with_capacity : ℕ → Row
  pub contains : Row → ℕ → Option Bool
  pub insert : Row → ℕ → Option Row
  pub count : Row → ℕ
  pub IsRow : ℕ → Row → Type 0
  pub reads : Row → ℕ → Bool
  pub written : Row → ℕ → Row
  pub with_capacity-IsRow : (n : ℕ) → IsRow n (with_capacity n)
  pub reads-with_capacity : (n i : ℕ) → reads (with_capacity n) i ≡ false
  pub contains-reads :
      (n : ℕ) (row : Row) (i : ℕ) → IsRow n row → i < n → contains row i ≡ some (reads row i)
  pub insert-written :
      (n : ℕ) (row : Row) (i : ℕ) → IsRow n row → i < n → insert row i ≡ some (written row i)
  pub written-IsRow : (n : ℕ) (row : Row) (i : ℕ) → IsRow n row → i < n → IsRow n (written row i)
  pub reads-written :
      (n : ℕ) (row : Row) (i j : ℕ)
      → IsRow n row
      → i < n
      → reads (written row i) j ≡ (j == i || reads row j)

pub record ReachabilityRelation (Row : Type 0) : Type 0 where
  pub num_nodes : ℕ
  pub relation_matrix : List Row

module _ (R : RowRelation) where
  open R use {Row}

  unfoldable pub new : ℕ → ReachabilityRelation Row
  new num_nodes = record {
    num_nodes = num_nodes;
    relation_matrix = resize [] num_nodes (R.with_capacity num_nodes);
  }

  unfoldable pub is_reachable : ReachabilityRelation Row → ℕ → ℕ → Option Bool
  is_reachable r from to =
      if leb r.num_nodes from || leb r.num_nodes to
      then some false
      else elim (get_elem? r.relation_matrix from) [ none ↦ none | some row ↦ R.contains row to ]

  unfoldable pub add_reachable :
      ReachabilityRelation Row → ℕ → ℕ → Option (ReachabilityRelation Row)
  add_reachable r from to =
      if leb r.num_nodes from || leb r.num_nodes to
      then none
      else elim (get_elem? r.relation_matrix from) [
        | none ↦ none
        | some row ↦
            Option.map (λ row'. record r { relation_matrix = set r.relation_matrix from row' })
              (R.insert row to)
      ]

  unfoldable pub count_rows : List Row → ℕ
  count_rows [] = 0
  count_rows (reachable_nodes ∷ rows) = R.count reachable_nodes + count_rows rows

  unfoldable pub num_reach_relations : ReachabilityRelation Row → ℕ
  unfolding count_rows
  num_reach_relations r = count_rows r.relation_matrix
