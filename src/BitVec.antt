-- ===== src/BitVec.antt =====
-- The growable bit vector (src/util/bit_vec.rs): `BitVec`, its operations and `BitIter`.
-- An index type `T: Idx` is the number that `index` gives. A `u64` word is a number below 2 ^ 64,
-- which `IsValid` in BitVec/Valid.antt says. `usize` has 64 bits.
pub mod Member
pub mod Valid
pub mod Ops
pub mod Superset
pub mod Insert
pub mod Bitwise
pub mod Elements
pub mod Sized
pub mod Iter
use rupta_fork.Base.{
  ℕ, zero, suc, ◌+◌, ◌-◌, ◌*◌, ◌/◌, ◌%◌, ◌^◌, bit_and, bit_or, bit_xor, List, [], ◌∷◌, Bool, true,
  false, not, ◌&&◌, Option, none, some, ltb, leb, ◌==◌, if◌then◌else◌, length, get_or, set, resize,
  all, map,
}

-- `WORD_BITS`, eight times the size of a `u64`.
abbrev pub word_bits : ℕ
word_bits = 64

-- The number of values of a `usize` or of a `Word`.
abbrev pub word_mod : ℕ
word_mod = 2 ^ 64

pub record BitVec : Type 0 where
  pub words : List ℕ

abbrev pub capacity : List ℕ → ℕ
capacity words = length words * word_bits

abbrev pub num_words : ℕ → ℕ
num_words cap = (cap + word_bits - 1) / word_bits

abbrev pub word_index_and_mask : ℕ → ℕ × ℕ
word_index_and_mask elem = (elem / word_bits, 2 ^ (elem % word_bits))

-- `!w` on a word.
abbrev pub complement : ℕ → ℕ
complement w = word_mod - 1 - w

unfoldable pub new_empty : BitVec
new_empty = record { words = [] }

unfoldable pub with_capacity : ℕ → BitVec
with_capacity cap = record { words = resize [] (num_words cap) 0 }

unfoldable pub ensure : BitVec → ℕ → BitVec
ensure b cap =
    let min_num_words = num_words cap in
    if ltb (length b.words) min_num_words
    then record { words = resize b.words min_num_words 0 }
    else b

unfoldable pub clear : BitVec → BitVec
clear b = record { words = map (λ _. 0) b.words }

-- `count_ones` of the lowest n digits of a word.
unfoldable pub ones : ℕ → ℕ → ℕ
ones zero w = 0
ones (suc n) w = w % 2 + ones n (w / 2)

unfoldable pub count_ones : ℕ → ℕ
count_ones w = ones word_bits w

unfoldable pub count_words : List ℕ → ℕ
count_words [] = 0
count_words (w ∷ ws) = count_ones w + count_words ws

unfoldable pub count : BitVec → ℕ
unfolding count_words
count b = count_words b.words

unfoldable pub contains : BitVec → ℕ → Bool
contains b elem =
    if leb (capacity b.words) elem
    then false
    else let (word_index, mask) = word_index_and_mask elem in
      not (bit_and (get_or b.words word_index 0) mask == 0)

-- `zip(..).all(|(a, b)| (a & b) == *b)`
unfoldable pub all_covered : List ℕ → List ℕ → Bool
all_covered [] ys = true
all_covered (a ∷ xs) [] = true
all_covered (a ∷ xs) (b ∷ ys) = bit_and a b == b && all_covered xs ys

unfoldable pub superset : BitVec → BitVec → Bool
unfolding all_covered
superset b other = all_covered (resize b.words (length other.words) 0) other.words

unfoldable pub is_empty : BitVec → Bool
is_empty b = all (λ a. a == 0) b.words

unfoldable pub insert : BitVec → ℕ → BitVec × Bool
unfolding ensure
insert b elem =
    let words = (ensure b (elem + 1)).words in
    let (word_index, mask) = word_index_and_mask elem in
    let word = get_or words word_index 0 in
    let new_word = bit_or word mask in
    (record { words = set words word_index new_word }, not (new_word == word))

unfoldable pub insert_all : BitVec → BitVec
insert_all b = record { words = map (λ _. complement 0) b.words }

unfoldable pub from_loop : BitVec → List ℕ → BitVec
unfolding insert
from_loop b [] = b
from_loop b (elem ∷ elems) = from_loop (insert b elem).0 elems

unfoldable pub from_vec : List ℕ → BitVec
unfolding from_loop new_empty
from_vec elems = from_loop new_empty elems

unfoldable pub remove : BitVec → ℕ → BitVec × Bool
remove b elem =
    if leb (capacity b.words) elem
    then (b, false)
    else let (word_index, mask) = word_index_and_mask elem in
      let word = get_or b.words word_index 0 in
      let new_word = bit_and word (complement mask) in
      (record { words = set b.words word_index new_word }, not (new_word == word))

-- The loop of `bitwise` over the zipped slices: the words written, and `changed`.
unfoldable pub bitwise_loop : (ℕ → ℕ → ℕ) → List ℕ → List ℕ → ℕ → List ℕ × ℕ
bitwise_loop op [] in_vec changed = ([], changed)
bitwise_loop op (old_val ∷ out_vec) [] changed = (old_val ∷ out_vec, changed)
bitwise_loop op (old_val ∷ out_vec) (in_elem ∷ in_vec) changed =
    let new_val = op old_val in_elem in
    let (rest, total) = bitwise_loop op out_vec in_vec (bit_or changed (bit_xor old_val new_val)) in
    (new_val ∷ rest, total)

unfoldable pub bitwise : (ℕ → ℕ → ℕ) → List ℕ → List ℕ → List ℕ × Bool
unfolding bitwise_loop
bitwise op out_vec in_vec =
    let (written, changed) = bitwise_loop op out_vec in_vec 0 in (written, not (changed == 0))

-- An operation of `BitVec` that is `bitwise` on the words.
abbrev pub on_words : List ℕ × Bool → BitVec × Bool
on_words r = (record { words = r.0 }, r.1)

unfoldable pub union : BitVec → BitVec → BitVec × Bool
unfolding bitwise ensure
union b other = on_words (bitwise bit_or (ensure b (capacity other.words)).words other.words)

unfoldable pub subtract : BitVec → BitVec → BitVec × Bool
unfolding bitwise
subtract b other = on_words (bitwise (λ x y. bit_and x (complement y)) b.words other.words)

unfoldable pub intersect : BitVec → BitVec → BitVec × Bool
unfolding bitwise
intersect b other = on_words (bitwise bit_and b.words other.words)

pub record BitIter : Type 0 where
  pub word : ℕ
  pub offset : ℕ
  pub iter : List ℕ

-- `usize::MAX - (WORD_BITS - 1)`, to which `wrapping_add` of a word's bits gives 0.
unfoldable pub iter : BitVec → BitIter
iter b = record { word = 0; offset = word_mod - 1 - (word_bits - 1); iter = b.words }

-- `trailing_zeros` of a word of n digits.
unfoldable pub zeros : ℕ → ℕ → ℕ
zeros zero w = 0
zeros (suc n) w = if w % 2 == 1 then 0 else suc (zeros n (w / 2))

unfoldable pub trailing_zeros : ℕ → ℕ
trailing_zeros w = zeros word_bits w

-- The branch of `next` at a nonzero word.
unfoldable pub next_in_word : ℕ → ℕ → List ℕ → Option ℕ × BitIter
next_in_word word offset iter =
    let bit_pos = trailing_zeros word in
    (
      some (bit_pos + offset),
      record { word = bit_xor word (2 ^ bit_pos); offset = offset; iter = iter },
    )

-- The loop of `next`, with the fields of the iterator as its variables.
unfoldable pub next_loop : ℕ → ℕ → List ℕ → Option ℕ × BitIter
unfolding next_in_word
next_loop word offset [] =
    if not (word == 0)
    then next_in_word word offset []
    else (none, record { word = word; offset = offset; iter = [] })
next_loop word offset (w ∷ ws) =
    let rest = next_loop w ((offset + word_bits) % word_mod) ws in
    if not (word == 0) then next_in_word word offset (w ∷ ws) else rest

unfoldable pub next : BitIter → Option ℕ × BitIter
unfolding next_loop
next it = next_loop it.word it.offset it.iter

-- What a `for` loop over the iterator sees, for at most as many rounds as the fuel.
unfoldable pub collect : ℕ → BitIter → List ℕ
unfolding next
collect zero it = []
collect (suc fuel) it =
    let (item, it') = next it in elim item [ none ↦ [] | some x ↦ x ∷ collect fuel it' ]

-- A vector has at most as many elements as it has bits.
unfoldable pub to_list : BitVec → List ℕ
unfolding collect iter
to_list b = collect (capacity b.words + 1) (iter b)
