-- ===== src/Petgraph.antt =====
-- `Graph` of the crate petgraph, which the call graph and the pointer assignment graph stand on: a
-- parameter, with its documented laws.
use rupta_fork.Base.{
  ℕ, ◌<◌, ◌≡◌, ◌↔◌, List, [], ◌∷◌, ◌++◌, true, Option, some, length, get_elem?, has,
}

-- `petgraph::Graph`, directed: nodes and edges are numbered in the order they were added, and
-- `add_edge` panics at a node that is not there. `weights`, `ends` and `labels` are its contents.
pub record DiGraph (N E : Type 0) : Type 1 where
  pub Graph : Type 0
  pub new : Graph
  pub node_count : Graph → ℕ
  pub add_node : Graph → N → Graph × ℕ
  pub add_edge : Graph → ℕ → ℕ → E → Option (Graph × ℕ)
  pub node_weight : Graph → ℕ → Option N
  pub edge_endpoints : Graph → ℕ → Option (ℕ × ℕ)
  pub edge_weight : Graph → ℕ → Option E
  pub edges_connecting : Graph → ℕ → ℕ → List ℕ
  pub neighbors : Graph → ℕ → List ℕ
  pub weights : Graph → List N
  pub ends : Graph → List (ℕ × ℕ)
  pub labels : Graph → List E
  pub weights-new : weights new ≡ []
  pub ends-new : ends new ≡ []
  pub labels-new : labels new ≡ []
  pub length-labels : (g : Graph) → length (labels g) ≡ length (ends g)
  pub node_count-weights : (g : Graph) → node_count g ≡ length (weights g)
  pub node_weight-weights : (g : Graph) (i : ℕ) → node_weight g i ≡ get_elem? (weights g) i
  pub edge_endpoints-ends : (g : Graph) (e : ℕ) → edge_endpoints g e ≡ get_elem? (ends g) e
  pub edge_weight-labels : (g : Graph) (e : ℕ) → edge_weight g e ≡ get_elem? (labels g) e
  pub edges_connecting-ends :
      (g : Graph) (a b e : ℕ)
      → (has (edges_connecting g a b) e ≡ true) ↔ (get_elem? (ends g) e ≡ some (a, b))
  pub neighbors-ends :
      (g : Graph) (a b : ℕ)
      → (has (neighbors g a) b ≡ true) ↔ ((e : ℕ) × (get_elem? (ends g) e ≡ some (a, b)))
  pub add_node-number : (g : Graph) (n : N) → (add_node g n).1 ≡ length (weights g)
  pub add_node-weights : (g : Graph) (n : N) → weights (add_node g n).0 ≡ (weights g ++ n ∷ [])
  pub add_node-ends : (g : Graph) (n : N) → ends (add_node g n).0 ≡ ends g
  pub add_node-labels : (g : Graph) (n : N) → labels (add_node g n).0 ≡ labels g
  pub add_edge_lem :
      (g : Graph) (a b : ℕ) (e : E)
      → a < length (weights g)
      → b < length (weights g)
      → (h : Graph) × (add_edge g a b e ≡ some (h, length (ends g)))
        × (weights h ≡ weights g)
        × (ends h ≡ (ends g ++ (a, b) ∷ []))
  pub add_edge-labels :
      (g h : Graph) (a b i : ℕ) (e : E)
      → add_edge g a b e ≡ some (h, i)
      → labels h ≡ (labels g ++ e ∷ [])
