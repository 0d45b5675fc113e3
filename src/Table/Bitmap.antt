-- ===== src/Table/Bitmap.antt =====
-- src/table_runtime.rs: the bitmap of rows that a predicate selects, with its number of set bits.
pub mod Count
pub mod Refine
use tricti.Base.{
  ℕ, zero, suc, ◌+◌, ◌-◌, Bool, true, false, ◌&&◌, ◌||◌, none, some, List, [], ◌∷◌, length,
  if◌then◌else◌, min, max, ltb,
}
use tricti.Base.Vec.{get_elem?, set, replicate}

pub record RowBitmap : Type 0 where
  pub bits : List Bool
  pub cardinality : ℕ

unfoldable pub new : ℕ → RowBitmap
unfolding replicate
new size = record { bits = replicate size false; cardinality = 0 }

unfoldable pub all_true : ℕ → RowBitmap
unfolding replicate
all_true size = record { bits = replicate size true; cardinality = size }

-- `self.bits[index]`, false where there is no such bit.
unfoldable pub bit_or_false : List Bool → ℕ → Bool
unfolding get_elem?
bit_or_false bits index = elim (get_elem? bits index) [ none ↦ false | some bit ↦ bit ]

-- The cardinality when a bit goes from `old` to `new`; `saturating_sub` is `-` on ℕ.
unfoldable pub recount : (old_value value : Bool) → ℕ → ℕ
recount true true n = n
recount false false n = n
recount false true n = n + 1
recount true false n = n - 1

unfoldable pub set_bit : ℕ → Bool → RowBitmap → RowBitmap
unfolding get_elem? set recount
set_bit index value bitmap = elim (get_elem? bitmap.bits index) [
  | none ↦ bitmap
  | some old_value ↦ record {
    bits = set bitmap.bits index value;
    cardinality = recount old_value value bitmap.cardinality;
  }
]

-- `if bit { result.bits[i] = true; result.cardinality += 1 }`
unfoldable pub raise_bit : Bool → ℕ → RowBitmap → RowBitmap
unfolding set
raise_bit false i result = result
raise_bit true i result = record {
  bits = set result.bits i true;
  cardinality = result.cardinality + 1;
}

-- `for i in 0..size { ... }`, where the first argument is the number of turns left.
unfoldable pub raise_bits : ℕ → ℕ → (ℕ → Bool) → RowBitmap → RowBitmap
unfolding raise_bit
raise_bits zero i bit result = result
raise_bits (suc left) i bit result = raise_bits left (i + 1) bit (raise_bit (bit i) i result)

unfoldable pub and : RowBitmap → RowBitmap → RowBitmap
unfolding raise_bits new bit_or_false
and self other =
    let size = min (length self.bits) (length other.bits) in
    raise_bits size 0 (λ i. bit_or_false self.bits i && bit_or_false other.bits i) (new size)

unfoldable pub or : RowBitmap → RowBitmap → RowBitmap
unfolding raise_bits new bit_or_false
or self other =
    let size = max (length self.bits) (length other.bits) in
    raise_bits size 0 (λ i. bit_or_false self.bits i || bit_or_false other.bits i) (new size)

unfoldable pub row_ids_from : ℕ → List Bool → List ℕ
row_ids_from i [] = []
row_ids_from i (bit ∷ bits) = let rest = row_ids_from (i + 1) bits in if bit then i ∷ rest else rest

unfoldable pub true_row_ids : RowBitmap → List ℕ
unfolding row_ids_from
true_row_ids bitmap = row_ids_from 0 bitmap.bits

unfoldable pub is_empty : RowBitmap → Bool
is_empty bitmap = ltb bitmap.cardinality 1
