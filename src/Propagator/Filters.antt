-- ===== src/Propagator/Filters.antt =====
-- src/pta/propagator/propagator.rs: what the solver asks its stack filter, and that this is what
-- `EdgeFilter` says. `stack_filtering` is the option of the analysis, and a path gives its value and
-- the function that it is in, as in `is_potentially_alive`.
use rupta_fork.Base.{
  ℕ, ◌≡◌, refl, ap, Bool, true, false, not, Option, none, some, if◌then◌else◌, List,
}
use mathlib.Core.Option
use rupta_fork.PtsSet.{PointsToSet}
use rupta_fork.MirPath.{PathEnum}
use rupta_fork.StackFilter as Stacks
use rupta_fork.StackFilter.{StackFilter, FunctionInfo, is_potentially_alive}
use rupta_fork.Propagator.{EdgeFilter}

module _ {F C K : Type 0} (Q : PointsToSet) where
  -- What does not read the collected pointees is the same after `collect_filtered_pts`.
  pub collect_filtered_pts-unread :
      {X : Type 0} (read : StackFilter F C K Q.Set → X)
      → ((s : StackFilter F C K Q.Set) (pts : List (ℕ × Q.Set))
          → read (record s { filtered_pts = pts }) ≡ read s)
      → (s : StackFilter F C K Q.Set) (e x : ℕ)
      → read (Stacks.collect_filtered_pts Q s e x) ≡ read s
  unfolding Stacks.collect_filtered_pts Stacks.add_filtered_pts
  collect_filtered_pts-unread read unread s e x =
      either s.collect_filtered_pts (Stacks.add_filtered_pts Q s e x) (unread s _)
    where
      either :
          (b : Bool) (t : StackFilter F C K Q.Set)
          → read t ≡ read s
          → read (if b then t else s) ≡ read s
      either true t h = h
      either false t h = refl

module _ {F C K P DefId Location : Type 0} (dec : Discrete F) (Q : PointsToSet) (into : F → ℕ)
    (acx : FunctionInfo) (stack_filtering : Bool)
    (reachable : StackFilter F C K Q.Set → F → F → Option Bool)
    (value : P → PathEnum DefId Location) (owner : P → Option F) where
  -- The closure that `stack_filter_pred` makes.
  unfoldable pub stack_filter_pred : Option (StackFilter F C K Q.Set) → ℕ → P → Option Bool
  unfolding Stacks.get_container_func_of_edge
  stack_filter_pred stack_filter edge_id pointee =
      if not stack_filtering then some false else elim stack_filter [
        | none ↦ some false
        | some sf ↦ elim (Stacks.get_container_func_of_edge Q sf edge_id) [
          | none ↦ some false
          | some edge_func ↦ Option.map not (
              is_potentially_alive dec into acx (reachable sf) edge_func (value pointee)
                (owner pointee))
        ]
      ]

  unfoldable pub collect_filtered_pts :
      Option (StackFilter F C K Q.Set) → ℕ → ℕ → Option (StackFilter F C K Q.Set)
  unfolding Stacks.collect_filtered_pts
  collect_filtered_pts stack_filter edge_id filtered_pointee =
      Option.map (λ sf. Stacks.collect_filtered_pts Q sf edge_id filtered_pointee) stack_filter

  unfoldable pub new_edge_from_store_or_load :
      Option (StackFilter F C K Q.Set) → ℕ → ℕ → Option (StackFilter F C K Q.Set)
  unfolding Stacks.add_pag_edge_in_func Stacks.get_container_func_of_edge
  new_edge_from_store_or_load stack_filter new_edge store_load_edge =
      Option.map
        (λ sf. elim (Stacks.get_container_func_of_edge Q sf store_load_edge) [
          | none ↦ sf
          | some func ↦ Stacks.add_pag_edge_in_func Q sf new_edge func
        ])
        stack_filter

  module _
      (unread : (s : StackFilter F C K Q.Set) (pts : List (ℕ × Q.Set))
        → reachable (record s { filtered_pts = pts }) ≡ reachable s) where
    -- The test does not read what is collected.
    pub stack_filter_pred-collect :
        (s : Option (StackFilter F C K Q.Set)) (e x edge : ℕ) (path : P)
        → stack_filter_pred (collect_filtered_pts s e x) edge path ≡ stack_filter_pred s edge path
    unfolding collect_filtered_pts stack_filter_pred Stacks.get_container_func_of_edge
    stack_filter_pred-collect none e x edge path = refl
    stack_filter_pred-collect (some s) e x edge path =
        collect_filtered_pts-unread Q (λ sf. stack_filter_pred (some sf) edge path) alike s e x
      where
        alike :
            (s : StackFilter F C K Q.Set) (pts : List (ℕ × Q.Set))
            → stack_filter_pred (some (record s { filtered_pts = pts })) edge path
              ≡ stack_filter_pred (some s) edge path
        alike s pts =
            ap
              (λ r.
                if not stack_filtering
                then some false
                else elim (Stacks.get_container_func_of_edge Q s edge) as (λ _. Option Bool) [
                  | none ↦ some false
                  | some edge_func ↦
                      Option.map not
                        (is_potentially_alive dec into acx r edge_func (value path) (owner path))
                ])
              (unread s pts)

    -- The stack filter as the solver uses it.
    unfoldable pub edge_filter : EdgeFilter P (Option (StackFilter F C K Q.Set))
    edge_filter = record {
      stack_filter_pred = stack_filter_pred;
      collect_filtered_pts = collect_filtered_pts;
      new_edge_from_store_or_load = new_edge_from_store_or_load;
      stack_filter_pred-collect = stack_filter_pred-collect;
    }
