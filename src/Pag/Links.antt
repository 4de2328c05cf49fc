-- ===== src/Pag/Links.antt =====
-- `link`: what is written for a new edge beside the graph itself.
use rupta_fork.Base.{
  ℕ, ◌≡◌, refl, sym, ap, subst, ◌∙◌, [], ◌∷◌, Bool, true, false, ◌&&◌, ◌||◌, ◌==◌, some, has,
  has-append,
}
use rupta_fork.Petgraph.{DiGraph}
use rupta_fork.ChunkedQueue.{ArrayVec, ChunkedQueue, chunk_cap}
use rupta_fork.ChunkedQueue.Chain.{contents}
use rupta_fork.ChunkedQueue.Push
use rupta_fork.Pag.{Pag, PagNode, PagEdge}
use rupta_fork.Pag.Kinds.{
  EdgeClass, addr, direct, load, store, gep, cast, offset, number, out_of, in_of, edges_at, linked,
  linked-Links,
}
use rupta_fork.Pag.Ops.{link}

module _ {P Fp : Type 0} (dec : Discrete P) (D : DiGraph (PagNode P) PagEdge)
    (V : ArrayVec ℕ chunk_cap) where
  -- The edge is entered in the two maps of its kind, and in the queue if it is an address edge.
  pub record Linked (c : EdgeClass) (g r : Pag P D.Graph V.Vec Fp) (src dst edge : ℕ) : Type 0 where
    pub graph : r.graph ≡ g.graph
    pub values : r.values ≡ g.values
    pub out :
        (d : EdgeClass) (k f : ℕ)
        → has (edges_at (out_of d r) k) f
          ≡ (number c == number d && (src == k && edge == f) || has (edges_at (out_of d g) k) f)
    pub into :
        (d : EdgeClass) (k f : ℕ)
        → has (edges_at (in_of d r) k) f
          ≡ (number c == number d && (dst == k && edge == f) || has (edges_at (in_of d g) k) f)
    pub queue : Push.IsValid V r.addr_edges_queue
    pub queued :
        (f : ℕ)
        → has (contents V r.addr_edges_queue.chunks) f
          ≡ (number c == number addr && edge == f || has (contents V g.addr_edges_queue.chunks) f)

  module _ (g : Pag P D.Graph V.Vec Fp) (v : Push.IsValid V g.addr_edges_queue)
      (src dst edge : ℕ) where
    plain_link :
        (c : EdgeClass)
        → ((f : Bool) → (number c == number addr && f) ≡ false)
        → Linked c g (linked c g src dst edge) src dst edge
    plain_link c other =
        let l = linked-Links c g src dst edge in
        record {
          graph = l.graph;
          values = l.values;
          out = l.out;
          into = l.into;
          queue = subst (Push.IsValid V) (sym l.queue) v;
          queued = λ f.
              ap (λ (q : ChunkedQueue V.Vec). has (contents V q.chunks) f) l.queue
              ∙ ap (λ b. b || has (contents V g.addr_edges_queue.chunks) f)
                  (sym (other (edge == f)));
        }

    abbrev with_queue : ChunkedQueue V.Vec → Pag P D.Graph V.Vec Fp
    with_queue q = record g { addr_edges_queue = q }

    with_queue_out : (q : ChunkedQueue V.Vec) (c : EdgeClass) → out_of c (with_queue q) ≡ out_of c g
    with_queue_out q addr = refl
    with_queue_out q _ = refl

    with_queue_in : (q : ChunkedQueue V.Vec) (c : EdgeClass) → in_of c (with_queue q) ≡ in_of c g
    with_queue_in q addr = refl
    with_queue_in q _ = refl

    addr_link :
        (r : Pag P D.Graph V.Vec Fp) × (link dec D V addr g src dst edge ≡ some r)
        × Linked addr g r src dst edge
    unfolding link
    addr_link =
        let (q, pushed, p) = Push.push-Pushes V g.addr_edges_queue v edge in
        let l = linked-Links addr (with_queue q) src dst edge in
        (
          linked addr (with_queue q) src dst edge,
          rw pushed refl,
          record {
            graph = l.graph;
            values = l.values;
            out = λ d k f.
                l.out d k f
                ∙ ap
                    (λ m.
                      number addr == number d && (src == k && edge == f) || has (edges_at m k) f)
                    (with_queue_out q d);
            into = λ d k f.
                l.into d k f
                ∙ ap
                    (λ m.
                      number addr == number d && (dst == k && edge == f) || has (edges_at m k) f)
                    (with_queue_in q d);
            queue = subst (Push.IsValid V) (sym l.queue) p.valid;
            queued = λ f.
                ap (λ (q : ChunkedQueue V.Vec). has (contents V q.chunks) f) l.queue
                ∙ ap (λ xs. has xs f) p.appended
                ∙ has-append (contents V g.addr_edges_queue.chunks) (edge ∷ []) f
                ∙ swapped (has (contents V g.addr_edges_queue.chunks) f) (edge == f);
          },
        )
      where
        swapped : (a b : Bool) → (a || (b || false)) ≡ (b || a)
        swapped true true = refl
        swapped true false = refl
        swapped false true = refl
        swapped false false = refl

    pub link-Linked :
        (c : EdgeClass)
        → (r : Pag P D.Graph V.Vec Fp) × (link dec D V c g src dst edge ≡ some r)
          × Linked c g r src dst edge
    unfolding link
    link-Linked addr = addr_link
    link-Linked direct = (linked direct g src dst edge, refl, plain_link direct (λ f. refl))
    link-Linked load = (linked load g src dst edge, refl, plain_link load (λ f. refl))
    link-Linked store = (linked store g src dst edge, refl, plain_link store (λ f. refl))
    link-Linked gep = (linked gep g src dst edge, refl, plain_link gep (λ f. refl))
    link-Linked cast = (linked cast g src dst edge, refl, plain_link cast (λ f. refl))
    link-Linked offset = (linked offset g src dst edge, refl, plain_link offset (λ f. refl))
