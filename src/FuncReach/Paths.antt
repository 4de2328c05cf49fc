-- ===== src/FuncReach/Paths.antt =====
-- The paths of a graph, and the edges that a search has still to take.
use rupta_fork.Base.{
  ℕ, zero, suc, ◌+◌, ◌<◌, ◌≤◌, ◌≡◌, refl, ap, List, Bool, true, false, ◌||◌, ◌==◌, if◌then◌else◌,
  length, has, arith, ℕ_discrete,
}
use rupta_fork.FuncReach.{out_edges}

-- `a` calls `b`, over one call or more.
pub data Reaches (neighbors : ℕ → List ℕ) (a : ℕ) : ℕ → Type 0 where
  call : {b : ℕ} → has (neighbors a) b ≡ true → Reaches neighbors a b
  over : {c b : ℕ} → Reaches neighbors a c → has (neighbors c) b ≡ true → Reaches neighbors a b

module _ (neighbors : ℕ → List ℕ) where
  -- The edges out of the nodes below `n` that are not marked.
  abbrev pub pending : (ℕ → Bool) → ℕ → ℕ
  pending marked zero = 0
  pending marked (suc n) = (if marked n then 0 else length (neighbors n)) + pending marked n

  pub pending-le : (marked : ℕ → Bool) (n : ℕ) → pending marked n ≤ out_edges neighbors n
  unfolding out_edges
  pending-le marked zero = omega arith
  pending-le marked (suc n) = ground (arith, pending-le marked n)

  -- One more mark at `x`.
  pub pending-beyond :
      (old more : ℕ → Bool) (x n : ℕ)
      → ((j : ℕ) → more j ≡ (j == x || old j))
      → n ≤ x
      → pending more n ≡ pending old n
  pending-beyond old more x zero h le = refl
  pending-beyond old more x (suc n) h le =
      ground (arith, h n, pending-beyond old more x n h (omega arith))

  pub pending-mark :
      (old more : ℕ → Bool) (x n : ℕ)
      → ((j : ℕ) → more j ≡ (j == x || old j))
      → old x ≡ false
      → x < n
      → pending more n + length (neighbors x) ≡ pending old n
  pending-mark old more x zero h fresh lt = absurd (omega arith)
  pending-mark old more x (suc n) h fresh lt = elim (ℕ_discrete n x) [
    | yes e ↦ ground (
      arith,
      h n,
      fresh,
      ap old e,
      ap (λ k. length (neighbors k)) e,
      pending-beyond old more x n h (omega arith),
    )
    | no ne ↦ ground (arith, h n, pending-mark old more x n h fresh (omega arith))
  ]
