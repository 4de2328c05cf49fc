-- ===== src/Pag/Fresh.antt =====
-- A fresh edge of the graph: which edges there are then.
use rupta_fork.Base.{
  ℕ, ◌≡◌, ◌⊎◌, inl, inr, sym, ap, ◌∙◌, [], ◌∷◌, ◌++◌, length, get_elem?, arith,
  get_elem?-append_new, get_elem?-append_old, get_elem?-append_cases, get_elem?-lt,
}
use rupta_fork.Petgraph.{DiGraph}
use rupta_fork.Pag.{PagNode, PagEdge, PagEdgeEnum}
use rupta_fork.Pag.Valid.{edge_of, Leads}

-- The graph with one more edge, from node `i` to node `j`.
module _ {P : Type 0} (D : DiGraph (PagNode P) PagEdge) (g h : D.Graph) (i j : ℕ)
    (kind : PagEdgeEnum) (ends : D.ends h ≡ (D.ends g ++ (i, j) ∷ []))
    (labels : D.labels h ≡ (D.labels g ++ edge_of kind ∷ [])) where
  pub fresh-Leads : Leads D h (length (D.ends g)) i j kind
  fresh-Leads = record {
    between =
        ap (λ xs. get_elem? xs (length (D.ends g))) ends ∙ get_elem?-append_new (D.ends g) (i, j);
    labelled =
        ap (λ xs. get_elem? xs (length (D.ends g))) labels
        ∙ ap (get_elem? (D.labels g ++ edge_of kind ∷ [])) (sym (D.length-labels g))
        ∙ get_elem?-append_new (D.labels g) (edge_of kind);
  }

  pub old-Leads : (e a b : ℕ) (k : PagEdgeEnum) → Leads D g e a b k → Leads D h e a b k
  old-Leads e a b k l = record {
    between =
        ap (λ xs. get_elem? xs e) ends ∙ get_elem?-append_old (D.ends g) (i, j) (a, b) e l.between;
    labelled =
        ap (λ xs. get_elem? xs e) labels
        ∙ get_elem?-append_old (D.labels g) (edge_of kind) (edge_of k) e l.labelled;
  }

  -- An edge is an old one or the fresh one.
  pub Leads-cases :
      (e a b : ℕ) (k : PagEdgeEnum)
      → Leads D h e a b k
      → Leads D g e a b k ⊎ (e ≡ length (D.ends g)) × (i ≡ a) × (j ≡ b) × (kind ≡ k)
  Leads-cases e a b k l =
      elim (get_elem?-append_cases (D.ends g) (i, j) (a, b) e
        (ap (λ xs. get_elem? xs e) (sym ends) ∙ l.between)) [
          | inl old ↦
              elim (get_elem?-append_cases (D.labels g) (edge_of kind) (edge_of k) e
                (ap (λ xs. get_elem? xs e) (sym labels) ∙ l.labelled)) [
                  | inl same ↦ inl (record { between = old; labelled = same })
                  | inr (at, _) ↦
                      let lt = get_elem?-lt (D.ends g) (a, b) e old in
                      absurd (omega (arith, D.length-labels g))
                ]
          | inr (at, same) ↦
              elim (get_elem?-append_cases (D.labels g) (edge_of kind) (edge_of k) e
                (ap (λ xs. get_elem? xs e) (sym labels) ∙ l.labelled)) [
                  | inl old ↦
                      let lt = get_elem?-lt (D.labels g) (edge_of k) e old in
                      absurd (omega (arith, D.length-labels g))
                  | inr (_, label) ↦ inr (
                    at,
                    ap (λ x. x.0) same,
                    ap (λ x. x.1) same,
                    ap (λ (x : PagEdge). x.kind) label,
                  )
                ]
        ]
