-- ===== src/Context.antt =====
-- src/mir/context.rs: calling contexts of bounded length, and the cache that numbers them.
-- `Rc` is not modelled: a context is its list of elements. `IndexVec` of the crate `rustc_index`
-- is the parameter `IndexVec` below; the elements have a decidable equality (`Eq`).
pub mod Limit
pub mod Cache
use rupta_fork.Base.{
  ℕ, zero, suc, ◌+◌, ◌-◌, ◌≡◌, List, [], ◌∷◌, ◌++◌, Bool, Option, none, some, ltb, leb,
  if◌then◌else◌, length, take, get_elem?,
}
use rupta_fork.Base.HashMap

pub record Context (E : Type 0) : Type 0 where
  pub context_elems : List E

module _ {E : Type 0} where
  unfoldable pub new_empty : Context E
  new_empty = record { context_elems = [] }

  unfoldable pub new : List E → Context E
  new elems = record { context_elems = elems }

  abbrev pub len : Context E → ℕ
  len c = length c.context_elems

  unfoldable pub new_k_limited_context : Context E → E → ℕ → Context E
  new_k_limited_context old_ctx elem k =
      if ltb 0 k
      then if ltb (len old_ctx) k
        then record { context_elems = elem ∷ old_ctx.context_elems }
        else record { context_elems = elem ∷ take (k - 1) old_ctx.context_elems }
      else record { context_elems = [] }

  unfoldable pub k_limited_context : Context E → ℕ → Context E
  k_limited_context ctx k =
      if leb (len ctx) k then ctx else record { context_elems = take k ctx.context_elems }

  unfoldable pub first_context_element : Context E → Option E
  first_context_element ctx = get_elem? ctx.context_elems 0

  unfoldable pub last_of : List E → Option E
  last_of [] = none
  last_of (x ∷ []) = some x
  last_of (x ∷ y ∷ xs) = last_of (y ∷ xs)

  unfoldable pub last_context_element : Context E → Option E
  unfolding last_of
  last_context_element ctx = last_of ctx.context_elems

-- `IndexVec` as the cache uses it: `push` gives the index of the new element, and `get` reads.
pub record IndexVec (A : Type 0) : Type 1 where
  pub Vec : Type 0
  pub empty : Vec
  pub push : Vec → A → Vec × ℕ
  pub get : Vec → ℕ → Option A
  pub items : Vec → List A
  pub items-empty : items empty ≡ []
  pub items-push : (v : Vec) (a : A) → items (push v a).0 ≡ (items v ++ a ∷ [])
  pub push-index : (v : Vec) (a : A) → (push v a).1 ≡ length (items v)
  pub get-items : (v : Vec) (i : ℕ) → get v i ≡ get_elem? (items v) i

pub record ContextCache (E V : Type 0) : Type 0 where
  pub context_list : V
  pub context_to_index_map : List (Context E × ℕ)

module _ {E : Type 0} (dec : Discrete (Context E)) (I : IndexVec (Context E)) where
  open I use {Vec}

  unfoldable pub new_cache : ContextCache E Vec
  new_cache = record { context_list = I.empty; context_to_index_map = [] }

  unfoldable pub get_context_id : ContextCache E Vec → Context E → ContextCache E Vec × ℕ
  get_context_id c context = elim (HashMap.get dec c.context_to_index_map context) [
    | some id ↦ (c, id)
    | none ↦
        let (list, id) = I.push c.context_list context in
        (
          record {
            context_list = list;
            context_to_index_map = HashMap.insert dec c.context_to_index_map context id;
          },
          id,
        )
  ]

  unfoldable pub get_context : ContextCache E Vec → ℕ → Option (Context E)
  get_context c id = I.get c.context_list id
