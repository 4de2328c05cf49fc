-- ===== src/Pag/Empty.antt =====
-- `PAG::new`: the graph the analysis starts with.
use rupta_fork.Base.{ℕ, ◌≡◌, sym, ap, refl, ◌∙◌, false, get_elem?, has}
use mathlib.Core.Bool.{false≢true}
use mathlib.Core.Option.{none-ne-some}
use rupta_fork.Base.HashMap
use rupta_fork.Petgraph.{DiGraph}
use rupta_fork.ChunkedQueue.{ArrayVec, chunk_cap}
use rupta_fork.ChunkedQueue.Push
use rupta_fork.Pag.{Pag, PagNode, PagEdge, PagEdgeEnum, new_node}
use rupta_fork.Pag.Kinds.{EdgeClass, addr, out_of, in_of, edges_at}
use rupta_fork.Pag.Ops.{new}
use rupta_fork.Pag.Valid.{Leads, IsValid}

module _ {P : Type 0} (D : DiGraph (PagNode P) PagEdge) where
  no_edge : (e a b : ℕ) (k : PagEdgeEnum) → Leads D D.new e a b k → ⊥
  no_edge e a b k l = none-ne-some (a, b) (sym (ap (λ xs. get_elem? xs e) D.ends-new) ∙ l.between)

module _ {P : Type 0} (Fp : Type 0) (dec : Discrete P) (D : DiGraph (PagNode P) PagEdge)
    (V : ArrayVec ℕ chunk_cap) where
  abbrev empty_pag : Pag P D.Graph V.Vec Fp
  empty_pag = new dec D V

  new_out : (c : EdgeClass) (n e : ℕ) → has (edges_at (out_of c empty_pag) n) e ≡ false
  unfolding new HashMap.get
  new_out addr n e = refl
  new_out _ n e = refl

  new_in : (c : EdgeClass) (n e : ℕ) → has (edges_at (in_of c empty_pag) n) e ≡ false
  unfolding new HashMap.get
  new_in addr n e = refl
  new_in _ n e = refl

  -- The new graph is valid.
  pub new-IsValid : IsValid dec D V (new {Fp = Fp} dec D V)
  unfolding new HashMap.get
  new-IsValid = record {
    numbered = λ p i h. absurd (none-ne-some i h);
    known = λ p i h.
        absurd (none-ne-some (new_node p) (sym (ap (λ xs. get_elem? xs i) D.weights-new) ∙ h));
    in_range =
        λ e a b h. absurd (none-ne-some (a, b) (sym (ap (λ xs. get_elem? xs e) D.ends-new) ∙ h));
    once = λ d e a b k x y. absurd (no_edge D d a b k x);
    outgoing = λ c n e. (
      λ h. absurd (false≢true (sym (new_out c n e) ∙ h)),
      λ (b, k, x, q). absurd (no_edge D e n b k x),
    );
    incoming = λ c n e. (
      λ h. absurd (false≢true (sym (new_in c n e) ∙ h)),
      λ (b, k, x, q). absurd (no_edge D e b n k x),
    );
    queue = Push.new-IsValid V;
    queued = λ e. (
      λ h. absurd (false≢true (sym (ap (λ xs. has xs e) (Push.contents-new V)) ∙ h)),
      λ (n, (b, k, x, q)). absurd (no_edge D e n b k x),
    );
  }
