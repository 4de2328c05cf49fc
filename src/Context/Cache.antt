-- ===== src/Context/Cache.antt =====
-- The cache of contexts: its map against its list, and what an index gives back.
use rupta_fork.Base.{
  ℕ, ◌≡◌, ◌⊎◌, inl, inr, refl, sym, ap, ◌∙◌, [], ◌∷◌, ◌++◌, none, some, length, get_elem?,
  Option-cases, subst, ite, if_pos, if_neg, get_elem?-append_old, get_elem?-append_new,
  get_elem?-append_cases,
}
use rupta_fork.Base.HashMap
use rupta_fork.Context.{Context, IndexVec, ContextCache, new_cache, get_context_id, get_context}

module _ {E : Type 0} (dec : Discrete (Context E)) (I : IndexVec (Context E)) where
  open I use {Vec}

  -- The map and the list say the same: an index is that of a context exactly when the context
  -- stands there.
  pub record IsValid (c : ContextCache E Vec) : Type 0 where
    pub listed :
        (ctx : Context E) (id : ℕ)
        → HashMap.get dec c.context_to_index_map ctx ≡ some id
        → get_elem? (I.items c.context_list) id ≡ some ctx
    pub indexed :
        (ctx : Context E) (id : ℕ)
        → get_elem? (I.items c.context_list) id ≡ some ctx
        → HashMap.get dec c.context_to_index_map ctx ≡ some id

  pub new_cache-IsValid : IsValid (new_cache dec I)
  unfolding new_cache HashMap.get
  new_cache-IsValid = record {
    listed = λ ctx id h. cc;
    indexed = λ ctx id h. let h' : get_elem? [] id ≡ some ctx = rw I.items-empty at h in cc;
  }

  module _ (c : ContextCache E Vec) (v : IsValid c) (ctx : Context E) where
    -- What `get_context_id` is to do.
    pub record Interns (r : ContextCache E Vec × ℕ) : Type 0 where
      pub found : get_context dec I r.0 r.1 ≡ some ctx
      pub kept :
          (x : Context E) (id : ℕ)
          → get_context dec I c id ≡ some x
          → get_context dec I r.0 id ≡ some x
      pub added :
          (x : Context E) (id : ℕ)
          → get_context dec I r.0 id ≡ some x
          → (get_context dec I c id ≡ some x) ⊎ (x ≡ ctx)
      pub valid : IsValid r.0

    old_Interns : (id : ℕ) → HashMap.get dec c.context_to_index_map ctx ≡ some id → Interns (c, id)
    unfolding get_context
    old_Interns id h = record {
      found = I.get-items c.context_list id ∙ v.listed ctx id h;
      kept = λ x i e. e;
      added = λ x i e. inl e;
      valid = v;
    }

    grown : ContextCache E Vec
    grown = record {
      context_list = (I.push c.context_list ctx).0;
      context_to_index_map =
          HashMap.insert dec c.context_to_index_map ctx (I.push c.context_list ctx).1;
    }

    grown_items : I.items grown.context_list ≡ (I.items c.context_list ++ ctx ∷ [])
    unfolding grown
    grown_items = I.items-push c.context_list ctx

    id : ℕ
    id = (I.push c.context_list ctx).1

    id_lem : id ≡ length (I.items c.context_list)
    unfolding id
    id_lem = I.push-index c.context_list ctx

    at_new : get_elem? (I.items grown.context_list) id ≡ some ctx
    at_new =
        subst (λ xs. get_elem? xs id ≡ some ctx) (sym grown_items)
          (subst (λ n. get_elem? (I.items c.context_list ++ ctx ∷ []) n ≡ some ctx) (sym id_lem)
            (get_elem?-append_new (I.items c.context_list) ctx))

    at_old :
        (x : Context E) (i : ℕ)
        → get_elem? (I.items c.context_list) i ≡ some x
        → get_elem? (I.items grown.context_list) i ≡ some x
    at_old x i h =
        subst (λ xs. get_elem? xs i ≡ some x) (sym grown_items)
          (get_elem?-append_old (I.items c.context_list) ctx x i h)

    at_cases :
        (x : Context E) (i : ℕ)
        → get_elem? (I.items grown.context_list) i ≡ some x
        → (get_elem? (I.items c.context_list) i ≡ some x) ⊎ ((i ≡ id) × (ctx ≡ x))
    at_cases x i h =
        elim (get_elem?-append_cases (I.items c.context_list) ctx x i
          (subst (λ xs. get_elem? xs i ≡ some x) grown_items h)) [
            | inl old ↦ inl old
            | inr (e, q) ↦ inr (e ∙ sym id_lem, q)
          ]

    grown_get :
        (x : Context E)
        → HashMap.get dec grown.context_to_index_map x
          ≡ ite (dec ctx x) (some id) (HashMap.get dec c.context_to_index_map x)
    unfolding grown id
    grown_get x = HashMap.get-insert dec c.context_to_index_map ctx x (I.push c.context_list ctx).1

    grown-IsValid : HashMap.get dec c.context_to_index_map ctx ≡ none → IsValid grown
    grown-IsValid absent = record {
      listed = λ x i h. elim (dec ctx x) [
        | yes e ↦
            let h' : some id ≡ some i = sym (grown_get x ∙ if_pos (dec ctx x) e _ _) ∙ h in
            subst (λ y. get_elem? (I.items grown.context_list) i ≡ some y) e
              (subst (λ n. get_elem? (I.items grown.context_list) n ≡ some ctx) (cc) at_new)
        | no ne ↦ at_old x i (v.listed x i (sym (grown_get x ∙ if_neg (dec ctx x) ne _ _) ∙ h))
      ];
      indexed = λ x i h. elim (at_cases x i h) [
        | inl old ↦ elim (dec ctx x) [
          | yes e ↦
              let h' : HashMap.get dec c.context_to_index_map ctx ≡ some i =
                subst (λ y. HashMap.get dec c.context_to_index_map y ≡ some i) (sym e)
                  (v.indexed x i old) in
              cc
          | no ne ↦ grown_get x ∙ if_neg (dec ctx x) ne _ _ ∙ v.indexed x i old
        ]
        | inr (e, q) ↦ grown_get x ∙ if_pos (dec ctx x) q _ _ ∙ ap some (sym e)
      ];
    }

    new_Interns : HashMap.get dec c.context_to_index_map ctx ≡ none → Interns (grown, id)
    unfolding get_context
    new_Interns absent = record {
      found = I.get-items grown.context_list id ∙ at_new;
      kept = λ x i h.
          I.get-items grown.context_list i ∙ at_old x i (sym (I.get-items c.context_list i) ∙ h);
      added = λ x i h. elim (at_cases x i (sym (I.get-items grown.context_list i) ∙ h)) [
        | inl old ↦ inl (I.get-items c.context_list i ∙ old)
        | inr (e, q) ↦ inr (sym q)
      ];
      valid = grown-IsValid absent;
    }

    -- On a cache whose map and list agree, `get_context_id` gives an index at which
    -- `get_context` finds the context; every index of before keeps its context, no other
    -- context than the given one is added, and the map and the list agree again.
    pub get_context_id-Interns : Interns (get_context_id dec I c ctx)
    unfolding get_context_id
    get_context_id-Interns = elim (Option-cases (HashMap.get dec c.context_to_index_map ctx)) [
      | inl absent ↦ rw (absent, get_context_id) (unfold grown id in new_Interns absent)
      | inr (i, there) ↦ rw (there, get_context_id) (old_Interns i there)
    ]

  -- On a cache whose map and list agree, two contexts asked for one after the other share an
  -- index only if they are equal.
  pub get_context_id_injective :
      (c : ContextCache E Vec) (x y : Context E)
      → IsValid c
      → let first = get_context_id dec I c x in first.1 ≡ (get_context_id dec I first.0 y).1 → x ≡ y
  get_context_id_injective c x y v e =
      let first = get_context_id-Interns c v x in
      let second = get_context_id-Interns (get_context_id dec I c x).0 first.valid y in
      let there = second.kept x (get_context_id dec I c x).1 first.found in
      let back =
        subst
          (λ i.
            get_context dec I (get_context_id dec I (get_context_id dec I c x).0 y).0 i ≡ some y)
          (sym e) second.found in
      let one : some x ≡ some y = sym there ∙ back in cc

  found_again :
      (r : ContextCache E Vec × ℕ) (ctx : Context E)
      → HashMap.get dec r.0.context_to_index_map ctx ≡ some r.1
      → get_context_id dec I r.0 ctx ≡ r
  unfolding get_context_id
  found_again r ctx h = rw (h, get_context_id) refl

  -- On a cache whose map and list agree, to ask again for the same context gives the same index
  -- and leaves the cache as it is.
  pub get_context_id_again :
      (c : ContextCache E Vec) (ctx : Context E)
      → IsValid c
      → get_context_id dec I (get_context_id dec I c ctx).0 ctx ≡ get_context_id dec I c ctx
  unfolding get_context
  get_context_id_again c ctx v =
      let first = get_context_id dec I c ctx in
      let interns = get_context_id-Interns c v ctx in
      found_again first ctx (
        interns.valid.indexed ctx first.1
          (sym (I.get-items first.0.context_list first.1) ∙ interns.found))
