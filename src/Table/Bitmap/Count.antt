-- ===== src/Table/Bitmap/Count.antt =====
-- src/table_runtime.rs: the cached cardinality of a row bitmap is its number of set bits.
use tricti.Base.{
  ℕ, zero, suc, ◌+◌, ◌<◌, ◌≤◌, ◌≡◌, refl, Bool, true, false, ◌&&◌, ◌||◌, some, List, [], ◌∷◌,
  length, if◌then◌else◌, ltb, leb, nat_beq, arith, Option-cases, inl, inr, ap, ◌∙◌, nat_beq_iff,
}
use tricti.Base.Vec.{get_elem?, set, replicate, get_elem?-set, length-set, get_elem?-none_le}
use tricti.Table.Bitmap.{
  RowBitmap, new, all_true, bit_or_false, recount, set_bit, raise_bit, raise_bits,
}

abbrev pub one_if : Bool → ℕ
one_if true = 1
one_if false = 0

unfoldable pub count_true : List Bool → ℕ
count_true [] = 0
count_true (bit ∷ bits) = one_if bit + count_true bits

abbrev pub IsCounted : RowBitmap → Type 0
IsCounted bitmap = bitmap.cardinality ≡ count_true bitmap.bits

count_true-set :
    (bits : List Bool) (i : ℕ) (old v : Bool)
    → get_elem? bits i ≡ some old
    → count_true (set bits i v) + one_if old ≡ count_true bits + one_if v
unfolding count_true set get_elem?
count_true-set [] i old v h = cc
count_true-set (b ∷ bits) zero old v h = ground arith
count_true-set (b ∷ bits) (suc i) old v h = omega (arith, count_true-set bits i old v h)

count_true-replicate : (n : ℕ) (b : Bool) → count_true (replicate n b) ≡ (if b then n else 0)
unfolding count_true replicate
count_true-replicate zero b = ground arith
count_true-replicate (suc n) b = ground (arith, count_true-replicate n b)

pub new-IsCounted : (size : ℕ) → IsCounted (new size)
unfolding new
new-IsCounted size = ground (arith, count_true-replicate size false)

pub all_true-IsCounted : (size : ℕ) → IsCounted (all_true size)
unfolding all_true
all_true-IsCounted size = ground (arith, count_true-replicate size true)

pub set_bit-IsCounted : (i : ℕ) (v : Bool) (b : RowBitmap) → IsCounted b → IsCounted (set_bit i v b)
unfolding recount set_bit count_true
set_bit-IsCounted i v b counted = elim (Option-cases (get_elem? b.bits i)) [
  | inl e ↦ rw (e, set_bit) counted
  | inr (old, e) ↦ rw (e, set_bit) (ground (arith, count_true-set b.bits i old v e, counted))
]

pub length-set_bit :
    (i : ℕ) (v : Bool) (b : RowBitmap) → length (set_bit i v b).bits ≡ length b.bits
unfolding set_bit
length-set_bit i v b = elim (Option-cases (get_elem? b.bits i)) [
  | inl e ↦ rw (e, set_bit) refl
  | inr (old, e) ↦ rw (e, set_bit) (length-set b.bits i v)
]

-- What a bit of the result is, where the loop starts on a bitmap without set bits from `i` on.
pub bit_or_false-set :
    (bits : List Bool) (i j : ℕ) (v : Bool)
    → bit_or_false (set bits i v) j
      ≡ (if nat_beq i j && ltb i (length bits) then v else bit_or_false bits j)
unfolding bit_or_false
bit_or_false-set bits i j v = ground (arith, get_elem?-set bits i j v)

pub bit_or_false-set_bit :
    (i j : ℕ) (v : Bool) (b : RowBitmap)
    → bit_or_false (set_bit i v b).bits j
      ≡ (if nat_beq i j && ltb i (length b.bits) then v else bit_or_false b.bits j)
unfolding set_bit bit_or_false
bit_or_false-set_bit i j v b = elim (Option-cases (get_elem? b.bits i)) [
  | inl e ↦ rw (e, set_bit) (ground (arith, get_elem?-none_le b.bits i e))
  | inr (old, e) ↦ rw (e, set_bit) (bit_or_false-set b.bits i j v)
]

length-raise_bit :
    (v : Bool) (i : ℕ) (b : RowBitmap) → length (raise_bit v i b).bits ≡ length b.bits
unfolding raise_bit
length-raise_bit false i b = refl
length-raise_bit true i b = length-set b.bits i true

bit_or_false-raise_bit :
    (v : Bool) (i j : ℕ) (b : RowBitmap)
    → i < length b.bits
    → bit_or_false (raise_bit v i b).bits j ≡ (nat_beq i j && v || bit_or_false b.bits j)
unfolding raise_bit
bit_or_false-raise_bit false i j b fits = ground arith
bit_or_false-raise_bit true i j b fits = ground (arith, bit_or_false-set b.bits i j true)

raise_bit-IsCounted :
    (v : Bool) (i : ℕ) (b : RowBitmap)
    → i < length b.bits
    → bit_or_false b.bits i ≡ false
    → IsCounted b
    → IsCounted (raise_bit v i b)
unfolding raise_bit bit_or_false
raise_bit-IsCounted false i b fits clear counted = counted
raise_bit-IsCounted true i b fits clear counted = elim (Option-cases (get_elem? b.bits i)) [
  | inl e ↦ absurd (omega (arith, get_elem?-none_le b.bits i e))
  | inr (old, e) ↦ ground (arith, count_true-set b.bits i old true e, counted, clear, e)
]

pub length-raise_bits :
    (left i : ℕ) (bit : ℕ → Bool) (b : RowBitmap)
    → length (raise_bits left i bit b).bits ≡ length b.bits
unfolding raise_bits
length-raise_bits zero i bit b = refl
length-raise_bits (suc left) i bit b =
    length-raise_bits left (i + 1) bit _ ∙ length-raise_bit (bit i) i b

-- The loop sets, of the bits that it passes, those that the test accepts.
pub bit_or_false-raise_bits :
    (left i j : ℕ) (bit : ℕ → Bool) (b : RowBitmap)
    → left + i ≤ length b.bits
    → bit_or_false (raise_bits left i bit b).bits j
      ≡ (leb i j && ltb j (left + i) && bit j || bit_or_false b.bits j)
unfolding raise_bits
bit_or_false-raise_bits zero i j bit b fits = ground arith
bit_or_false-raise_bits (suc left) i j bit b fits =
    step _ _ _
      (bit_or_false-raise_bits left (i + 1) j bit (raise_bit (bit i) i b)
        (omega (arith, length-raise_bit (bit i) i b)))
      (bit_or_false-raise_bit (bit i) i j b (omega arith))
      (λ same. ap bit ((nat_beq_iff i j).0 same))
  where
    step :
        (now before here : Bool)
        → now ≡ (leb (i + 1) j && ltb j (left + (i + 1)) && bit j || before)
        → before ≡ (nat_beq i j && bit i || here)
        → (nat_beq i j ≡ true → bit i ≡ bit j)
        → now ≡ (leb i j && ltb j (suc left + i) && bit j || here)
    step now before here later first same = ground (arith, later, first, same)

pub raise_bits-IsCounted :
    (left i : ℕ) (bit : ℕ → Bool) (b : RowBitmap)
    → left + i ≤ length b.bits
    → ((j : ℕ) → i ≤ j → bit_or_false b.bits j ≡ false)
    → IsCounted b
    → IsCounted (raise_bits left i bit b)
unfolding raise_bits
raise_bits-IsCounted zero i bit b fits clear counted = counted
raise_bits-IsCounted (suc left) i bit b fits clear counted =
    raise_bits-IsCounted left (i + 1) bit (raise_bit (bit i) i b)
      (omega (arith, length-raise_bit (bit i) i b))
      (λ j past.
        ground (arith, bit_or_false-raise_bit (bit i) i j b (omega arith), clear j (omega arith)))
      (raise_bit-IsCounted (bit i) i b (omega arith) (clear i (omega arith)) counted)
