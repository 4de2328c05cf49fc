-- ===== src/Reach/Rows.antt =====
-- The two implementations of `RowRelation`: a vector of flags, and a bit vector.
use rupta_fork.Base.{
  subst, sym, ℕ, zero, suc, ◌+◌, ◌<◌, ◌≡◌, refl, ap, ◌∙◌, List, [], ◌∷◌, Bool, true, false, ◌||◌,
  ◌==◌, Option, none, some, ltb, if◌then◌else◌, length, get_elem?, get_or, set, resize, arith,
  ℕ_discrete, length-set, length-resize, get_or-set_self, get_or-set_ne,
}
use rupta_fork.BitVec
use rupta_fork.BitVec.{BitVec}
use rupta_fork.BitVec.Insert.{contains-insert}
use rupta_fork.BitVec.Member.{contains-member, digit-resize, digit_beyond}
use rupta_fork.Reach.{RowRelation}

-- `self[elem] = true`
unfoldable pub set_flag : List Bool → ℕ → Option (List Bool)
set_flag flags elem = if ltb elem (length flags) then some (set flags elem true) else none

unfoldable pub count_flags : List Bool → ℕ
count_flags [] = 0
count_flags (true ∷ flags) = 1 + count_flags flags
count_flags (false ∷ flags) = count_flags flags

pub get_elem?-get_or {ℓ} :
    {A : Type ℓ} (xs : List A) (i : ℕ) (d : A)
    → i < length xs
    → get_elem? xs i ≡ some (get_or xs i d)
get_elem?-get_or [] i d h = absurd (omega arith)
get_elem?-get_or (x ∷ xs) zero d h = refl
get_elem?-get_or (x ∷ xs) (suc i) d h = get_elem?-get_or xs i d (omega arith)

pub all_false : (n i : ℕ) → get_or (resize [] n false) i false ≡ false
all_false zero i = refl
all_false (suc n) zero = refl
all_false (suc n) (suc i) = all_false n i

pub flag_written :
    (flags : List Bool) (i j : ℕ)
    → i < length flags
    → get_or (set flags i true) j false ≡ (j == i || get_or flags j false)
flag_written flags i j h = elim (ℕ_discrete i j) [
  | yes e ↦
      ground
        (arith, get_or-set_self flags i true false h, ap (λ k. get_or (set flags i true) k false) e)
  | no ne ↦ ground (arith, get_or-set_ne flags i j true false ne)
]

pub set_flag-within :
    (flags : List Bool) (i : ℕ) → i < length flags → set_flag flags i ≡ some (set flags i true)
unfolding set_flag
set_flag-within flags i h = ground arith

abbrev pub flag_row : RowRelation
flag_row = record {
  Row = List Bool;
  new_empty = [];
  with_capacity = λ n. resize [] n false;
  contains = get_elem?;
  insert = set_flag;
  count = count_flags;
  IsRow = λ n row. length row ≡ n;
  reads = λ row i. get_or row i false;
  written = λ row i. set row i true;
  with_capacity-IsRow = λ n. length-resize [] n false;
  reads-with_capacity = all_false;
  contains-reads = λ n row i v h. get_elem?-get_or row i false (omega arith);
  insert-written = λ n row i v h. set_flag-within row i (subst (λ m. i < m) (sym v) h);
  written-IsRow = λ n row i v h. length-set row i true ∙ v;
  reads-written = λ n row i j v h. flag_written row i j (omega arith);
}

pub no_bits : (n x : ℕ) → BitVec.contains (BitVec.with_capacity n) x ≡ false
unfolding BitVec.with_capacity
no_bits n x = ground (
  arith,
  contains-member (BitVec.with_capacity n) x,
  digit-resize [] (BitVec.num_words n) x (omega arith),
  digit_beyond [] x (omega arith),
)

abbrev pub bit_row : RowRelation
bit_row = record {
  Row = BitVec;
  new_empty = BitVec.new_empty;
  with_capacity = BitVec.with_capacity;
  contains = λ row i. some (BitVec.contains row i);
  insert = λ row i. some (BitVec.insert row i).0;
  count = BitVec.count;
  IsRow = λ n row. Unit;
  reads = BitVec.contains;
  written = λ row i. (BitVec.insert row i).0;
  with_capacity-IsRow = λ n. tt;
  reads-with_capacity = no_bits;
  contains-reads = λ n row i v h. refl;
  insert-written = λ n row i v h. refl;
  written-IsRow = λ n row i v h. tt;
  reads-written = λ n row i j v h. contains-insert row i j;
}
