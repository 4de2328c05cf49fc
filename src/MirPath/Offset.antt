-- ===== src/MirPath/Offset.antt =====
-- `add_offset`: offsets add up.
use rupta_fork.Base.{
  ℕ, zero, suc, ◌+◌, ◌%◌, ◌^◌, ◌<◌, ◌==◌, ◌≡◌, refl, sym, ap, subst, ◌∙◌, true, some, if◌then◌else◌,
  arith,
}
use rupta_fork.BitVec.{word_mod}
use rupta_fork.MirPath.{PathEnum, local_variable, qualified_path, offset_path}
use rupta_fork.MirPath.Create.{new_offset}
use rupta_fork.MirPath.Project.{is_one_deref, add_offset, get_containing_func}
use rupta_fork.MirPath.Valid.{IsOffsetBase, IsPath}

module _ {DefId Location : Type 0} where
  -- The offset of a path, and what it is taken from.
  abbrev pub offset_of : PathEnum DefId Location → ℕ
  offset_of (offset_path base offset) = offset
  offset_of _ = 0

  abbrev pub offset_base : PathEnum DefId Location → PathEnum DefId Location
  offset_base (offset_path base offset) = base
  offset_base p = p

  offset_base-IsPath : (p : PathEnum DefId Location) → IsPath p → IsPath (offset_base p)
  offset_base-IsPath (offset_path base offset) v = v.2
  offset_base-IsPath (local_variable f i) v = v
  offset_base-IsPath (qualified_path base projection) v = v
  offset_base-IsPath _ v = v

  -- What can be given an offset: a path that is no projection but a `deref`.
  abbrev pub TakesOffset : PathEnum DefId Location → Type 0
  TakesOffset (qualified_path base projection) = is_one_deref projection ≡ true
  TakesOffset _ = Unit

  -- What it is to add an offset to `p`.
  pub record Shifts (p : PathEnum DefId Location) (n : ℕ) (q : PathEnum DefId Location)
      : Type 0 where
    pub same_base : offset_base q ≡ offset_base p
    pub sum : offset_of q ≡ offset_of p + n
    pub path : IsPath q
    pub takes : TakesOffset q
    pub same_func : get_containing_func q ≡ get_containing_func p

  new_offset_lem :
      (base : PathEnum DefId Location) (old_offset n : ℕ)
      → old_offset + suc n < 2 ^ 64
      → new_offset base ((old_offset + suc n) % word_mod) ≡ offset_path base (old_offset + suc n)
  unfolding new_offset
  new_offset_lem base old_offset n fits =
      let small : (old_offset + suc n) % word_mod ≡ old_offset + suc n = omega arith in
      rw small (ground arith)

  new_offset-suc :
      (base : PathEnum DefId Location) (n : ℕ) → new_offset base (suc n) ≡ offset_path base (suc n)
  unfolding new_offset
  new_offset-suc base n = ground arith

  plain_shift :
      (p : PathEnum DefId Location) (n : ℕ)
      → IsPath p
      → IsOffsetBase p
      → offset_base p ≡ p
      → offset_of p ≡ 0
      → Shifts p (suc n) (offset_path p (suc n))
  unfolding get_containing_func
  plain_shift p n v base own none_yet = record {
    same_base = sym own;
    sum = omega arith;
    path = (omega arith, base, v);
    takes = tt;
    same_func = refl;
  }

  pub add_offset-Shifts :
      (p : PathEnum DefId Location) (n : ℕ)
      → IsPath p
      → TakesOffset p
      → offset_of p + n < 2 ^ 64
      → (q : PathEnum DefId Location) × (add_offset p n ≡ some q) × Shifts p n q
  unfolding add_offset
  add_offset-Shifts p zero v h fits = (
    p,
    add_none p,
    record { same_base = refl; sum = omega arith; path = v; takes = h; same_func = refl },
  )
    where
      add_none : (p : PathEnum DefId Location) → add_offset p 0 ≡ some p
      add_none p = refl
  add_offset-Shifts (offset_path base old_offset) (suc n) v h fits = (
    offset_path base (old_offset + suc n),
    ap some (new_offset_lem base old_offset n fits),
    record {
      same_base = refl;
      sum = refl;
      path = (omega arith, v.1, v.2);
      takes = tt;
      same_func = unfold get_containing_func in refl;
    },
  )
  add_offset-Shifts (qualified_path base projection) (suc n) v h fits =
      let made = new_offset-suc (qualified_path base projection) n in
      (
        offset_path (qualified_path base projection) (suc n),
        ground arith,
        plain_shift (qualified_path base projection) n v h refl refl,
      )
  add_offset-Shifts (local_variable f i) (suc n) v h fits = (
    offset_path (local_variable f i) (suc n),
    ap some (new_offset-suc (local_variable f i) n),
    plain_shift (local_variable f i) n v tt refl refl,
  )
  add_offset-Shifts p (suc n) v h fits =
      (offset_path p (suc n), ap some (new_offset-suc p n), plain_shift p n v tt refl refl)

  -- A path is given by its offset and what the offset is taken from.
  abbrev reoffset : PathEnum DefId Location → ℕ → PathEnum DefId Location
  reoffset base n = if n == 0 then base else offset_path base n

  reoffset_lem :
      (p : PathEnum DefId Location) → IsPath p → reoffset (offset_base p) (offset_of p) ≡ p
  reoffset_lem (offset_path base offset) v = ground arith
  reoffset_lem (local_variable f i) v = refl
  reoffset_lem _ v = refl

  -- On a well-formed path that is no projection but a dereference, two offsets added one
  -- after the other are their sum added at once, provided that all offsets of the path
  -- together stay below 2^64.
  pub add_offset-add :
      (p q : PathEnum DefId Location) (a b : ℕ)
      → IsPath p
      → TakesOffset p
      → offset_of p + a + b < 2 ^ 64
      → add_offset p a ≡ some q
      → add_offset q b ≡ add_offset p (a + b)
  add_offset-add p q a b v h fits made =
      let (q', hq, first') = add_offset-Shifts p a v h (omega arith) in
      let first : Shifts p a q = subst (Shifts p a) (cc) first' in
      let (r, hr, second) =
        add_offset-Shifts q b first.path first.takes (omega (arith, first.sum)) in
      let (t, ht, both) = add_offset-Shifts p (a + b) v h (omega arith) in
      let base : offset_base r ≡ offset_base t =
        second.same_base ∙ first.same_base ∙ sym both.same_base in
      let offset : offset_of r ≡ offset_of t = omega (arith, first.sum, second.sum, both.sum) in
      let e : r ≡ t =
        sym (reoffset_lem r second.path)
        ∙ ap (λ c. reoffset c (offset_of r)) base
        ∙ ap (reoffset (offset_base t)) offset
        ∙ reoffset_lem t both.path in
      hr ∙ ap some e ∙ sym ht
