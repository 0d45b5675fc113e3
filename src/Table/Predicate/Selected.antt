-- ===== src/Table/Predicate/Selected.antt =====
-- src/table_runtime.rs: the bitmap of a column selects the rows that a filtered scan gives.
use tricti.Base.{
  ℕ, zero, suc, ◌+◌, ◌-◌, ◌<◌, ◌≤◌, ◌≡◌, refl, ap, ◌∙◌, Bool, true, false, ◌&&◌, ◌||◌, List, [],
  ◌∷◌, length, text_key, number_key, arith, if◌then◌else◌, retain, leb, ltb, nat_beq, nat_beq_iff,
}
use tricti.Table.Bitmap.{RowBitmap, new, set_bit, bit_or_false, row_ids_from, true_row_ids}
use tricti.Table.Bitmap.Count.{length-set_bit, bit_or_false-set_bit}
use tricti.Table.Bitmap.Refine.{bit_or_false-new, length-new, bit_or_false-cons}
use tricti.Table.Index.{set_rows}
use tricti.Table.Scan.{range}

set_if : Bool → ℕ → RowBitmap → RowBitmap
set_if test i b = if test then set_bit i true b else b

length-set_if : (v : Bool) (i : ℕ) (b : RowBitmap) → length (set_if v i b).bits ≡ length b.bits
unfolding set_if
length-set_if true i b = length-set_bit i true b
length-set_if false i b = refl

bit_or_false-set_if :
    (v : Bool) (i j : ℕ) (b : RowBitmap)
    → i < length b.bits
    → bit_or_false (set_if v i b).bits j ≡ (nat_beq i j && v || bit_or_false b.bits j)
unfolding set_if
bit_or_false-set_if true i j b h = ground (arith, bit_or_false-set_bit i j true b)
bit_or_false-set_if false i j b h = ground arith

length-set_rows :
    (left i : ℕ) (test : ℕ → Bool) (b : RowBitmap)
    → length (set_rows left i test b).bits ≡ length b.bits
unfolding set_rows set_if
length-set_rows zero i test b = refl
length-set_rows (suc left) i test b =
    length-set_rows left (i + 1) test _ ∙ length-set_if (test i) i b

pub bit_or_false-set_rows :
    (left i j : ℕ) (test : ℕ → Bool) (b : RowBitmap)
    → left + i ≤ length b.bits
    → bit_or_false (set_rows left i test b).bits j
      ≡ (leb i j && ltb j (left + i) && test j || bit_or_false b.bits j)
unfolding set_rows set_if
bit_or_false-set_rows zero i j test b fits = ground arith
bit_or_false-set_rows (suc left) i j test b fits =
    step _ _ _
      (bit_or_false-set_rows left (i + 1) j test (set_if (test i) i b)
        (omega (arith, length-set_if (test i) i b)))
      (bit_or_false-set_if (test i) i j b (omega arith))
      (λ same. ap test ((nat_beq_iff i j).0 same))
  where
    step :
        (now before here : Bool)
        → now ≡ (leb (i + 1) j && ltb j (left + (i + 1)) && test j || before)
        → before ≡ (nat_beq i j && test i || here)
        → (nat_beq i j ≡ true → test i ≡ test j)
        → now ≡ (leb i j && ltb j (suc left + i) && test j || here)
    step now before here later first same = ground (arith, later, first, same)

-- The set bits in order, where the bits are those of a test.
row_ids_from-retain :
    (bits : List Bool) (i : ℕ) (test : ℕ → Bool)
    → ((j : ℕ) → j < length bits → bit_or_false bits j ≡ test (i + j))
    → row_ids_from i bits ≡ retain test (range i (length bits))
unfolding row_ids_from retain range
row_ids_from-retain [] i test same = refl
row_ids_from-retain (b ∷ bits) i test same =
    step b (test i) _ _ (first same) (row_ids_from-retain bits (i + 1) test (λ j h. later j h))
  where
    first :
        ((j : ℕ) → j < length (b ∷ bits) → bit_or_false (b ∷ bits) j ≡ test (i + j)) → b ≡ test i
    first known = ground (
      arith,
      known 0 (omega arith),
      bit_or_false-cons 0 b bits,
      ap test {x = i + 0} {y = i} (omega arith),
    )

    later : (j : ℕ) → j < length bits → bit_or_false bits j ≡ test (i + 1 + j)
    later j h = ground (
      arith,
      same (suc j) (omega arith),
      bit_or_false-cons (suc j) b bits,
      ap (bit_or_false bits) {x = suc j - 1} {y = j} (omega arith),
      ap test {x = i + suc j} {y = i + 1 + j} (omega arith),
    )

    step :
        (bit wanted : Bool) (rest kept : List ℕ)
        → bit ≡ wanted
        → rest ≡ kept
        → (if bit then i ∷ rest else rest) ≡ (if wanted then i ∷ kept else kept)
    step bit wanted rest kept e f = cc

pub true_row_ids-set_rows :
    (n : ℕ) (test : ℕ → Bool) → true_row_ids (set_rows n 0 test (new n)) ≡ retain test (range 0 n)
unfolding true_row_ids
true_row_ids-set_rows n test =
    let made = set_rows n 0 test (new n) in
    let size : length made.bits ≡ n = length-set_rows n 0 test (new n) ∙ length-new n in
    row_ids_from-retain made.bits 0 test (λ j h. ground (
      arith,
      bit_or_false-set_rows n 0 j test (new n) (omega (arith, length-new n)),
      bit_or_false-new n j,
      size,
      ap test {x = 0 + j} {y = j} (omega arith),
    ))
    ∙ ap (λ k. retain test (range 0 k)) size
