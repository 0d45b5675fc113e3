-- ===== src/Table/Bitmap/Refine.antt =====
-- src/table_runtime.rs: row bitmaps against the sets of row numbers that they stand for.
use tricti.Base.{
  ℕ, zero, suc, ◌+◌, ◌-◌, ◌≤◌, ◌≡◌, refl, Bool, true, false, ◌&&◌, ◌||◌, List, [], ◌∷◌, length,
  if◌then◌else◌, min, max, ltb, leb, nat_beq, arith, ap, ◌∙◌, number_key,
}
use tricti.Base.HashSet.{contains}
use tricti.Base.Vec.{get_elem?, length-replicate, get_elem?-replicate}
use tricti.Table.Bitmap.{
  RowBitmap, new, all_true, bit_or_false, set_bit, raise_bits, and, or, row_ids_from, true_row_ids,
  is_empty,
}
use tricti.Table.Bitmap.Count.{
  IsCounted, count_true, new-IsCounted, all_true-IsCounted, set_bit-IsCounted, length-set_bit,
  bit_or_false-set_bit, length-raise_bits, bit_or_false-raise_bits, raise_bits-IsCounted,
}

-- How a bitmap is built, by the calls that this module offers.
pub data Plan : Type 0 where
  empty : (size : ℕ) → Plan
  full : (size : ℕ) → Plan
  put : (index : ℕ) (value : Bool) → Plan → Plan
  meet : Plan → Plan → Plan
  join : Plan → Plan → Plan

unfoldable pub build : Plan → RowBitmap
unfolding new all_true set_bit and or
build (empty size) = new size
build (full size) = all_true size
build (put index value plan) = set_bit index value (build plan)
build (meet left right) = and (build left) (build right)
build (join left right) = or (build left) (build right)

-- The specification: a number of rows, and the set of those that are selected.
unfoldable pub rows : Plan → ℕ
rows (empty size) = size
rows (full size) = size
rows (put index value plan) = rows plan
rows (meet left right) = min (rows left) (rows right)
rows (join left right) = max (rows left) (rows right)

unfoldable pub selects : Plan → ℕ → Bool
unfolding rows
selects (empty size) j = false
selects (full size) j = ltb j size
selects (put index value plan) j =
    let before = selects plan j in
    if nat_beq index j && ltb index (rows plan) then value else before
selects (meet left right) j = selects left j && selects right j
selects (join left right) j = selects left j || selects right j

pub bit_or_false-new : (size j : ℕ) → bit_or_false (new size).bits j ≡ false
unfolding bit_or_false new
bit_or_false-new size j = ground (arith, get_elem?-replicate size j false)

bit_or_false-all_true : (size j : ℕ) → bit_or_false (all_true size).bits j ≡ ltb j size
unfolding bit_or_false all_true
bit_or_false-all_true size j = ground (arith, get_elem?-replicate size j true)

pub length-new : (size : ℕ) → length (new size).bits ≡ size
unfolding new
length-new size = length-replicate size false

bit_or_false_out : (bits : List Bool) (j : ℕ) → length bits ≤ j → bit_or_false bits j ≡ false
unfolding bit_or_false get_elem?
bit_or_false_out [] j h = refl
bit_or_false_out (b ∷ bits) zero h = absurd (omega arith)
bit_or_false_out (b ∷ bits) (suc j) h = bit_or_false_out bits j (omega arith)

-- A bitmap of `size` bits built by the loop from a new one.
loop_lem :
    (size : ℕ) (bit : ℕ → Bool)
    → IsCounted (raise_bits size 0 bit (new size))
      × (length (raise_bits size 0 bit (new size)).bits ≡ size)
      × ((j : ℕ) → bit_or_false (raise_bits size 0 bit (new size)).bits j ≡ (ltb j size && bit j))
loop_lem size bit = (
  raise_bits-IsCounted size 0 bit (new size) (omega (arith, length-new size))
      (λ j h. bit_or_false-new size j) (new-IsCounted size),
  length-raise_bits size 0 bit (new size) ∙ length-new size,
  λ j. ground (
    arith,
    bit_or_false-raise_bits size 0 j bit (new size) (omega (arith, length-new size)),
    bit_or_false-new size j,
  ),
)

abbrev Refines : RowBitmap → ℕ → (ℕ → Bool) → Type 0
Refines bitmap size member =
    IsCounted bitmap
    × (length bitmap.bits ≡ size)
    × ((j : ℕ) → bit_or_false bitmap.bits j ≡ member j)

and-Refines :
    (a b : RowBitmap) {m n : ℕ} {p q : ℕ → Bool}
    → Refines a m p
    → Refines b n q
    → Refines (and a b) (min m n) (λ j. p j && q j)
unfolding and
and-Refines a b h k =
    let made = loop_lem (min (length a.bits) (length b.bits)) _ in
    (
      made.0,
      omega (arith, made.1, h.1, k.1),
      λ j.
          ground
            (arith, made.2 j, h.2 j, k.2 j, bit_or_false_out a.bits j, bit_or_false_out b.bits j),
    )

or-Refines :
    (a b : RowBitmap) {m n : ℕ} {p q : ℕ → Bool}
    → Refines a m p
    → Refines b n q
    → Refines (or a b) (max m n) (λ j. p j || q j)
unfolding or
or-Refines a b h k =
    let made = loop_lem (max (length a.bits) (length b.bits)) _ in
    (
      made.0,
      omega (arith, made.1, h.1, k.1),
      λ j.
          ground
            (arith, made.2 j, h.2 j, k.2 j, bit_or_false_out a.bits j, bit_or_false_out b.bits j),
    )

pub build-Refines : (plan : Plan) → Refines (build plan) (rows plan) (selects plan)
unfolding build rows selects all_true
build-Refines (empty size) = (new-IsCounted size, length-new size, bit_or_false-new size)
build-Refines (full size) =
    (all_true-IsCounted size, length-replicate size true, bit_or_false-all_true size)
build-Refines (put index value plan) =
    let known = build-Refines plan in
    (
      set_bit-IsCounted index value (build plan) known.0,
      length-set_bit index value (build plan) ∙ known.1,
      λ j. ground (arith, bit_or_false-set_bit index j value (build plan), known.1, known.2 j),
    )
build-Refines (meet left right) =
    and-Refines (build left) (build right) (build-Refines left) (build-Refines right)
build-Refines (join left right) =
    or-Refines (build left) (build right) (build-Refines left) (build-Refines right)

pub bit_or_false-cons :
    (n : ℕ) (b : Bool) (bits : List Bool)
    → bit_or_false (b ∷ bits) n ≡ (if nat_beq n 0 then b else bit_or_false bits (n - 1))
unfolding bit_or_false get_elem?
bit_or_false-cons zero b bits = refl
bit_or_false-cons (suc n) b bits = ground arith

contains-row_ids_from :
    (i k : ℕ) (bits : List Bool)
    → contains (row_ids_from i bits) k ≡ (leb i k && bit_or_false bits (k - i))
unfolding contains row_ids_from
contains-row_ids_from i k [] = ground (arith, bit_or_false_out [] (k - i) (omega arith))
contains-row_ids_from i k (b ∷ bits) =
    let next : k - i - 1 ≡ k - (i + 1) = omega arith in
    step b _ (contains-row_ids_from (i + 1) k bits) (bit_or_false-cons (k - i) b bits)
      (ap (bit_or_false bits) next)
  where
    step :
        (bit : Bool) (rest : List ℕ) {now before after : Bool}
        → contains rest k ≡ (leb (i + 1) k && after)
        → now ≡ (if nat_beq (k - i) 0 then bit else before)
        → before ≡ after
        → contains (if bit then i ∷ rest else rest) k ≡ (leb i k && now)
    step true rest later here same = ground (arith, later, here, same)
    step false rest later here same = ground (arith, later, here, same)

count_true_zero : (bits : List Bool) (j : ℕ) → count_true bits ≡ 0 → bit_or_false bits j ≡ false
unfolding count_true bit_or_false get_elem?
count_true_zero [] j h = refl
count_true_zero (b ∷ bits) zero h = ground arith
count_true_zero (b ∷ bits) (suc j) h = count_true_zero bits j (ground arith)

-- The rows that the iterator gives are those whose bit is set.
pub contains-true_row_ids :
    (b : RowBitmap) (j : ℕ) → contains (true_row_ids b) j ≡ bit_or_false b.bits j
unfolding true_row_ids
contains-true_row_ids b j = ground (arith, contains-row_ids_from 0 j b.bits)

is_empty_zero : (b : RowBitmap) → IsCounted b → is_empty b ≡ true → count_true b.bits ≡ 0
unfolding is_empty
is_empty_zero b counted bare = ground (arith, counted, bare)

-- Every bitmap that the calls build stands for the set that they specify: it has that many rows,
-- its iterator gives the members of the set and no other row, its cached cardinality is the number
-- of its set bits, and where it answers that it is empty no row is selected.
pub build_refines :
    (plan : Plan)
    → (length (build plan).bits ≡ rows plan)
      × ((j : ℕ) → contains (true_row_ids (build plan)) j ≡ selects plan j)
      × ((build plan).cardinality ≡ count_true (build plan).bits)
      × (is_empty (build plan) ≡ true → (j : ℕ) → selects plan j ≡ false)
build_refines plan =
    let known = build-Refines plan in
    (
      known.1,
      λ j. contains-true_row_ids (build plan) j ∙ known.2 j,
      known.0,
      λ bare j. ground (
        arith,
        known.2 j,
        count_true_zero (build plan).bits j (is_empty_zero (build plan) known.0 bare),
      ),
    )
