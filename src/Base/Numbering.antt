-- ===== src/Base/Numbering.antt =====
-- A map that numbers its keys by their places in a list, as the graphs number their nodes.
use rupta_fork.Base.Lists.{
  length, get_elem?, get_elem?-append_new, get_elem?-append_old, get_elem?-append_cases,
}
use Prim.Native.Nat.{ℕ}
use mathlib.Core.Path.{◌≡◌, sym, ap, ap₂, ◌∙◌}
use mathlib.Core.Logic.{inl, inr}
use mathlib.Core.List.{List, [], ◌∷◌, ◌++◌}
use mathlib.Core.Option.{none, some, none-ne-some, some-injective}
use rupta_fork.Base.HashMap

module _ {K N : Type 0} (dec : Discrete K) (item : K → N) where
  pub record Numbers (m : List (K × ℕ)) (items : List N) : Type 0 where
    pub numbered :
        (k : K) (i : ℕ) → HashMap.get dec m k ≡ some i → get_elem? items i ≡ some (item k)
    pub known : (k : K) (i : ℕ) → get_elem? items i ≡ some (item k) → HashMap.get dec m k ≡ some i

  -- A new key gets the next number.
  pub Numbers-insert :
      (m : List (K × ℕ)) (items more : List N) (k : K) (n : ℕ)
      → ((a b : K) → item a ≡ item b → a ≡ b)
      → Numbers m items
      → HashMap.get dec m k ≡ none
      → n ≡ length items
      → more ≡ items ++ item k ∷ []
      → Numbers (HashMap.insert dec m k n) more
  Numbers-insert m items more k n one_item v missing last longer = record {
    numbered = λ a i found. elim (dec k a) [
      | yes e ↦
          let at : i ≡ length items =
            sym (
              some-injective n i (
                sym (HashMap.get-insert_self dec m k n)
                ∙ ap (HashMap.get dec (HashMap.insert dec m k n)) e
                ∙ found))
            ∙ last in
          ap₂ get_elem? longer at ∙ get_elem?-append_new items (item k) ∙ ap (λ x. some (item x)) e
      | no ne ↦
          ap (λ xs. get_elem? xs i) longer
          ∙ get_elem?-append_old items (item k) (item a) i
              (v.numbered a i (sym (HashMap.get-insert_ne dec m k a n ne) ∙ found))
    ];
    known = λ a i found.
        elim (get_elem?-append_cases items (item k) (item a) i
          (ap (λ xs. get_elem? xs i) (sym longer) ∙ found)) [
            | inl old ↦
                let was = v.known a i old in
                HashMap.get-insert_ne dec m k a n
                  (λ e. none-ne-some i (sym missing ∙ ap (HashMap.get dec m) e ∙ was))
                ∙ was
            | inr (at, same) ↦
                ap (HashMap.get dec (HashMap.insert dec m k n)) (sym (one_item k a same))
                ∙ HashMap.get-insert_self dec m k n
                ∙ ap some (last ∙ sym at)
          ];
  }
