-- ===== src/Base/HashMap.antt =====
-- `HashMap` of the standard library as an association list. The order of its entries is never
-- read by the program's code that is modelled.
use mathlib.Core.Path.{◌≡◌, refl}
use mathlib.Core.Logic.{◌≢◌, ite}
use mathlib.Core.List.{List, [], ◌∷◌}
use mathlib.Core.Option.{Option, none, some, get_or}
use native.Mathlib.Omega.{arith}

module _ {ℓ} {K V : Type ℓ} (dec : Discrete K) where
  unfoldable pub get : List (K × V) → K → Option V
  get [] k = none
  get ((j, v) ∷ m) k = ite (dec j k) (some v) (get m k)

  unfoldable pub insert : List (K × V) → K → V → List (K × V)
  insert [] k v = (k, v) ∷ []
  insert ((j, w) ∷ m) k v = ite (dec j k) ((k, v) ∷ m) ((j, w) ∷ insert m k v)

  -- `entry(k).or_insert(d)`, read.
  abbrev pub get_or_default : List (K × V) → K → V → V
  get_or_default m k d = get_or (get m k) d

  pub get-insert :
      (m : List (K × V)) (k j : K) (v : V) → get (insert m k v) j ≡ ite (dec k j) (some v) (get m j)
  unfolding get insert
  get-insert [] k j v = refl
  get-insert ((i, w) ∷ m) k j v = ground (arith, get-insert m k j v)

  pub get-insert_self : (m : List (K × V)) (k : K) (v : V) → get (insert m k v) k ≡ some v
  get-insert_self m k v = ground (arith, get-insert m k k v)

  pub get-insert_ne : (m : List (K × V)) (k j : K) (v : V) → k ≢ j → get (insert m k v) j ≡ get m j
  get-insert_ne m k j v ne = ground (arith, get-insert m k j v)
