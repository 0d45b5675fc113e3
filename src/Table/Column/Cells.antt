-- ===== src/Table/Column/Cells.antt =====
-- src/table_runtime.rs: what a column gives for each row after one of its writes.
use mathlib.Core.Option
use tricti.Base.{
  ℕ, zero, suc, ◌∷◌, ◌-◌, ◌<◌, ◌≡◌, refl, ap, ◌&&◌, Option, none, some, List, [], ◌++◌, length,
  if◌then◌else◌, nat_beq, nat_beq_iff, ◌≢◌, inl, inr, ltb, arith, length-append,
}
use tricti.Base.Result.{Result, ok, err, Result-cases}
use tricti.Base.Vec.{
  get_elem?, set, replicate, get_elem?-replicate, length-replicate, get_elem?-set, get_elem?-none,
}
use tricti.Table.Error.{TableError}
use tricti.Table.Value.{ColumnValue, u64, i32, string, bool, f64}
use tricti.Table.Column.{
  ColumnData, u64_column, i32_column, string_column, bool_column, f64_column, len, grown, grow,
  set_value, mark_deleted, set_value_at, or_keep, read, get_value,
}

module _ {ℓ} {A : Type ℓ} where
  length-grown : (i : ℕ) (vec : List (Option A)) → i < length (grown i vec)
  unfolding grown
  length-grown i vec = omega (
    arith,
    length-append vec (replicate (suc i - length vec) none),
    length-replicate {A = Option A} (suc i - length vec) none,
  )

  read-append_none :
      (vec : List (Option A)) (n j : ℕ) → read (vec ++ replicate n none) j ≡ read vec j
  unfolding read get_elem?
  read-append_none [] n j = ground (arith, get_elem?-replicate {A = Option A} n j none)
  read-append_none (x ∷ vec) n zero = refl
  read-append_none (x ∷ vec) n (suc j) = read-append_none vec n j

  read-grown : (i j : ℕ) (vec : List (Option A)) → read (grown i vec) j ≡ read vec j
  unfolding grown
  read-grown i j vec = read-append_none vec (suc i - length vec) j

  read-set :
      (vec : List (Option A)) (i j : ℕ) (v : Option A)
      → read (set vec i v) j ≡ (if nat_beq i j && ltb i (length vec) then v else read vec j)
  unfolding read
  read-set vec i j v = ground (arith, get_elem?-set vec i j v)

pub len-grow : (i : ℕ) (column : ColumnData) → i < len (grow i column)
unfolding len grow
len-grow i (u64_column vec) = length-grown i vec
len-grow i (i32_column vec) = length-grown i vec
len-grow i (string_column vec) = length-grown i vec
len-grow i (bool_column vec) = length-grown i vec
len-grow i (f64_column vec) = length-grown i vec

pub get_value-grow :
    (i j : ℕ) (column : ColumnData) → get_value j (grow i column) ≡ get_value j column
unfolding get_value grow
get_value-grow i j (u64_column vec) = ap (Option.map u64) (read-grown i j vec)
get_value-grow i j (i32_column vec) = ap (Option.map i32) (read-grown i j vec)
get_value-grow i j (string_column vec) = ap (Option.map string) (read-grown i j vec)
get_value-grow i j (bool_column vec) = ap (Option.map bool) (read-grown i j vec)
get_value-grow i j (f64_column vec) = ap (Option.map f64) (read-grown i j vec)

pub get_value-set_value :
    (i j : ℕ) (v : ColumnValue) (column written : ColumnData)
    → set_value i v column ≡ ok written
    → get_value j written
      ≡ (if nat_beq i j && ltb i (len column) then some v else get_value j column)
unfolding set_value get_value len
get_value-set_value i j (u64 v) (u64_column vec) written e =
    ground (arith, e, read-set vec i j (some v))
get_value-set_value i j (i32 v) (i32_column vec) written e =
    ground (arith, e, read-set vec i j (some v))
get_value-set_value i j (string v) (string_column vec) written e =
    ground (arith, e, read-set vec i j (some v))
get_value-set_value i j (bool v) (bool_column vec) written e =
    ground (arith, e, read-set vec i j (some v))
get_value-set_value i j (f64 v) (f64_column vec) written e =
    ground (arith, e, read-set vec i j (some v))
get_value-set_value i j v column written e = cc

cleared :
    {A : Type 0} (f : A → ColumnValue) (i j : ℕ) (vec : List (Option A))
    → Option.map f (read (set vec i none) j)
      ≡ (if nat_beq i j then none else Option.map f (read vec j))
unfolding read
cleared f i j vec = ground (arith, read-set vec i j none, get_elem?-none vec j)

pub get_value-mark_deleted :
    (i j : ℕ) (column : ColumnData)
    → get_value j (mark_deleted i column) ≡ (if nat_beq i j then none else get_value j column)
unfolding mark_deleted get_value
get_value-mark_deleted i j (u64_column vec) = cleared u64 i j vec
get_value-mark_deleted i j (i32_column vec) = cleared i32 i j vec
get_value-mark_deleted i j (string_column vec) = cleared string i j vec
get_value-mark_deleted i j (bool_column vec) = cleared bool i j vec
get_value-mark_deleted i j (f64_column vec) = cleared f64 i j vec

-- Every way to write a cell leaves the other cells as they are, and the cell that is written holds
-- the value; where the value does not fit the column, every cell keeps its value.
pub set_value_at_cells :
    (i j : ℕ) (v : ColumnValue) (column : ColumnData)
    → ((set_value_at i (some v) column).1 ≡ ok tt
        → get_value j (set_value_at i (some v) column).0
          ≡ (if nat_beq i j then some v else get_value j column))
      × ((e : TableError)
          → (set_value_at i (some v) column).1 ≡ err e
          → get_value j (set_value_at i (some v) column).0 ≡ get_value j column)
unfolding set_value_at or_keep
set_value_at_cells i j v column = cells (set_value i v (grow i column)) refl
  where
    cells :
        (written : Result TableError ColumnData)
        → set_value i v (grow i column) ≡ written
        → ((or_keep (grow i column) written).1 ≡ ok tt
            → get_value j (or_keep (grow i column) written).0
              ≡ (if nat_beq i j then some v else get_value j column))
          × ((e : TableError)
              → (or_keep (grow i column) written).1 ≡ err e
              → get_value j (or_keep (grow i column) written).0 ≡ get_value j column)
    cells (ok made) e = (
      (λ _. ground (
        arith,
        get_value-set_value i j v (grow i column) made e,
        len-grow i column,
        get_value-grow i j column,
      )),
      λ x h. cc,
    )
    cells (err x) e = ((λ h. cc), λ y h. get_value-grow i j column)

pub set_value_at_other :
    (i j : ℕ) (v : ColumnValue) (column : ColumnData)
    → i ≢ j
    → get_value j (set_value_at i (some v) column).0 ≡ get_value j column
set_value_at_other i j v column apart = elim (Result-cases (set_value_at i (some v) column).1) [
  | inl (done, e) ↦ ground (arith, (set_value_at_cells i j v column).0 e, nat_beq_iff i j)
  | inr (x, e) ↦ (set_value_at_cells i j v column).1 x e
]
