-- ===== src/Base/BTreeSet.antt =====
-- `BTreeSet` of the standard library on numbers, as the ascending list of its elements.
use Prim.Native.Nat.{ℕ}
use mathlib.Core.Path.{◌≡◌}
use mathlib.Core.Bool.{◌||◌}
use mathlib.Core.List.{List, [], ◌∷◌}
use native.Mathlib.Omega.{arith}
use rupta_fork.Base.Tests.{◌==◌, ltb, if◌then◌else◌}
use rupta_fork.Base.Lists.{has}

unfoldable pub insert : List ℕ → ℕ → List ℕ
insert [] k = k ∷ []
insert (x ∷ xs) k = if ltb k x then k ∷ x ∷ xs else if x == k then x ∷ xs else x ∷ insert xs k

pub has-insert : (xs : List ℕ) (k j : ℕ) → has (insert xs k) j ≡ (k == j || has xs j)
unfolding insert
has-insert [] k j = ground arith
has-insert (x ∷ xs) k j = ground (arith, has-insert xs k j)
