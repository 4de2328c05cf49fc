-- ===== src/Tests/Contexts.antt =====
-- The theorems on the contexts, the strategies and the calls at concrete inputs.
use rupta_fork.Base.{
  ℕ, ◌≡◌, refl, ap, List, [], ◌∷◌, ◌++◌, some, arith, length, get_elem?, ℕ_discrete,
}
use mathlib.Core.List.{List-discrete}
use rupta_fork.Context
use rupta_fork.Context.{Context, IndexVec, ContextCache, new_k_limited_context, k_limited_context}
use rupta_fork.Context.Cache.{Interns, new_cache-IsValid, get_context_id-Interns}
use rupta_fork.Strategy
use rupta_fork.Strategy.Extend.{
  Extends, get_context_id-IsLimited, get_context-get_context_id, IsLimited, new-IsLimited,
  new_context-Extends,
}
use rupta_fork.CallSite.{CsFuncId, CallSite}

-- An `IndexVec` that is its list.
abbrev list_vec : {A : Type 0} → IndexVec A
list_vec {A = A} = record {
  Vec = List A;
  empty = [];
  push = λ v a. (v ++ a ∷ [], length v);
  get = get_elem?;
  items = λ v. v;
  items-empty = refl;
  items-push = λ v a. refl;
  push-index = λ v a. refl;
  get-items = λ v i. refl;
}

abbrev context_discrete : Discrete (Context ℕ)
context_discrete a b = elim (List-discrete ℕ_discrete a.context_elems b.context_elems) [
  | yes e ↦ yes (ap (λ xs. record { context_elems = xs }) e)
  | no ne ↦ no (λ q. ne (ap (λ (c : Context ℕ). c.context_elems) q))
]

abbrev caller : Context ℕ
caller = record { context_elems = 4 ∷ 3 ∷ [] }

abbrev cache : ContextCache ℕ (List (Context ℕ))
cache = Context.new_cache context_discrete list_vec

get_context_id-Interns_example :
    Interns context_discrete list_vec cache
      (new_cache-IsValid context_discrete list_vec)
      caller
      (Context.get_context_id context_discrete list_vec cache caller)
get_context_id-Interns_example =
    get_context_id-Interns context_discrete list_vec cache
      (new_cache-IsValid context_discrete list_vec) caller

abbrev strategy : Strategy.KLimited ℕ (List (Context ℕ))
strategy = Strategy.new context_discrete list_vec 1

strategy-IsLimited : IsLimited context_discrete list_vec strategy
strategy-IsLimited = new-IsLimited context_discrete list_vec 1

-- The strategy once `main` has been given the empty context.
abbrev started : Strategy.KLimited ℕ (List (Context ℕ)) × ℕ
started = Strategy.get_context_id context_discrete list_vec strategy Context.new_empty

new_context-Extends_example :
    (r : Strategy.KLimited ℕ (List (Context ℕ)) × ℕ) × (Strategy.new_context context_discrete
        list_vec started.0 started.1 8
      ≡ some r)
    × Extends context_discrete list_vec started.0 started.1 Context.new_empty 8 r
unfolding Context.new_empty Strategy.new
new_context-Extends_example =
    new_context-Extends context_discrete list_vec started.0 started.1 Context.new_empty 8
      (get_context_id-IsLimited context_discrete list_vec strategy Context.new_empty
        strategy-IsLimited (omega arith))
      (get_context-get_context_id context_discrete list_vec strategy Context.new_empty
        strategy-IsLimited)

abbrev receiver : Strategy.CsPath ℕ
receiver = record { cid = started.1; path = 8 }

abbrev callsite : CallSite CsFuncId ℕ ℕ
callsite = record {
  func = record { cid = 0; func_id = 3 };
  location = 6;
  args = 1 ∷ [];
  destination = 2;
}
