-- ===== src/CallGraph/Calls.antt =====
-- `add_edge` and `has_edge` against the set of the calls, pairs of a call site and a callee.
use rupta_fork.Base.{ℕ, ◌≡◌, inl, inr, refl, ap, ◌∙◌, List, [], Bool, some, Option-cases}
use rupta_fork.Base.HashMap
use rupta_fork.Base.HashSet
use rupta_fork.ChunkedQueue.{ArrayVec, chunk_cap}
use rupta_fork.CallGraph.{DiGraph, CallGraphNode, CallGraphEdge, Cg, get_callees, has_edge}
use rupta_fork.CallGraph.Edges.{any_leads, callees_of_lem, any_leads-Extends}
use rupta_fork.CallGraph.Nodes.{IsValid, Noded, edges_of}

module _ {F S B : Type 0} (dec_f : Discrete F) (dec_s : Discrete S) (dec_b : Discrete B)
    (D : DiGraph (CallGraphNode F) (CallGraphEdge S)) (V : ArrayVec F chunk_cap) where
  -- The call graph has the call, read off its edges.
  abbrev pub calls : Cg dec_f dec_s dec_b D V → S → F → Bool
  calls cg s f = any_leads dec_f dec_s dec_b D V cg.graph (edges_of dec_f dec_s dec_b D V cg s) f

  -- On a valid call graph `get_callees` does not panic, and gives exactly the functions that
  -- an edge of the call site leads to.
  pub get_callees-calls :
      (cg : Cg dec_f dec_s dec_b D V) (v : IsValid dec_f dec_s dec_b D V cg) (s : S)
      → (fs : List F) × (get_callees dec_f dec_s dec_b D V cg s ≡ some fs)
        × ((f : F) → HashSet.contains dec_f fs f ≡ calls cg s f)
  unfolding get_callees HashSet.contains
  get_callees-calls cg v s = elim (Option-cases (HashMap.get dec_s cg.callsite_to_edges s)) [
    | inl missing ↦ ([], rw (missing, get_callees) refl, λ f. rw missing refl)
    | inr (es, found) ↦
        let (fs, done, all) = callees_of_lem dec_f dec_s dec_b D V cg.graph v.in_range es in
        (fs, rw (found, get_callees) done, λ f. rw found (all f))
  ]

  pub has_edge-calls :
      (cg : Cg dec_f dec_s dec_b D V) (v : IsValid dec_f dec_s dec_b D V cg) (s : S) (f : F)
      → has_edge dec_f dec_s dec_b D V cg s f ≡ some (calls cg s f)
  unfolding has_edge
  has_edge-calls cg v s f =
      let (fs, done, all) = get_callees-calls cg v s in rw (done, has_edge) (ap some (all f))

  -- A node that is there or new makes no call.
  pub calls-Noded :
      (cg r : Cg dec_f dec_s dec_b D V) (v : IsValid dec_f dec_s dec_b D V cg) (f : F) (i : ℕ)
      → Noded dec_f dec_s dec_b D V cg r f i
      → (s : S) (g : F) → calls r s g ≡ calls cg s g
  calls-Noded cg r v f i n s g =
      ap (λ m. any_leads dec_f dec_s dec_b D V r.graph (HashMap.get_or_default dec_s m s []) g)
        n.same_edges
      ∙ any_leads-Extends dec_f dec_s dec_b D V cg.graph r.graph v.in_range n.extends
          (edges_of dec_f dec_s dec_b D V cg s) g (v.edges s)
