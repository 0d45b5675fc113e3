-- ===== src/Table/Column.antt =====
-- src/table_runtime.rs: the data of one column, a vector whose empty places are rows without a value.
pub mod Cells
pub mod Kind
use mathlib.Core.Option
use tricti.Base.{
  ℕ, suc, ◌-◌, Bool, true, false, Option, none, some, List, [], ◌++◌, String, length, ◌==◌,
  text_key, if◌then◌else◌,
}
use tricti.Base.Result.{Result, ok, err}
use tricti.Base.Vec.{get_elem?, set, replicate}
use tricti.Table.Error.{TableError, type_mismatch}
use tricti.Table.Value.{ColumnValue, u64, i32, string, bool, f64}

-- `f64::from_bits` and `to_bits` are each other's inverses, and an f64 is its bits here.
pub data ColumnData : Type 0 where
  u64_column : List (Option ℕ) → ColumnData
  i32_column : List (Option ℕ) → ColumnData
  string_column : List (Option String) → ColumnData
  bool_column : List (Option Bool) → ColumnData
  f64_column : List (Option ℕ) → ColumnData

unfoldable pub new_for_type : String → ColumnData
new_for_type type_name =
    if type_name == "u64"
    then u64_column []
    else if type_name == "i32"
    then i32_column []
    else if type_name == "string"
    then string_column []
    else if type_name == "String"
    then string_column []
    else if type_name == "bool"
    then bool_column []
    else if type_name == "f64"
    then f64_column []
    else string_column []

unfoldable pub len : ColumnData → ℕ
len (u64_column vec) = length vec
len (i32_column vec) = length vec
len (string_column vec) = length vec
len (bool_column vec) = length vec
len (f64_column vec) = length vec

-- `while vec.len() <= index { vec.push(None) }`
unfoldable pub grown {ℓ} : {A : Type ℓ} → ℕ → List (Option A) → List (Option A)
unfolding replicate
grown index vec = vec ++ replicate (suc index - length vec) none

unfoldable pub grow : ℕ → ColumnData → ColumnData
unfolding grown
grow index (u64_column vec) = u64_column (grown index vec)
grow index (i32_column vec) = i32_column (grown index vec)
grow index (string_column vec) = string_column (grown index vec)
grow index (bool_column vec) = bool_column (grown index vec)
grow index (f64_column vec) = f64_column (grown index vec)

abbrev pub incompatible {ℓ} : {A : Type ℓ} → Result TableError A
incompatible = err (type_mismatch "unknown" "matching type" "incompatible type")

-- `vec[index] = …`, which `vec.get_mut(index)` writes as well.
unfoldable pub set_value : ℕ → ColumnValue → ColumnData → Result TableError ColumnData
unfolding set
set_value index (u64 v) (u64_column vec) = ok (u64_column (set vec index (some v)))
set_value index (i32 v) (i32_column vec) = ok (i32_column (set vec index (some v)))
set_value index (string v) (string_column vec) = ok (string_column (set vec index (some v)))
set_value index (bool v) (bool_column vec) = ok (bool_column (set vec index (some v)))
set_value index (f64 v) (f64_column vec) = ok (f64_column (set vec index (some v)))
set_value _ _ _ = incompatible

unfoldable pub mark_deleted : ℕ → ColumnData → ColumnData
unfolding set
mark_deleted index (u64_column vec) = u64_column (set vec index none)
mark_deleted index (i32_column vec) = i32_column (set vec index none)
mark_deleted index (string_column vec) = string_column (set vec index none)
mark_deleted index (bool_column vec) = bool_column (set vec index none)
mark_deleted index (f64_column vec) = f64_column (set vec index none)

unfoldable pub or_keep :
    ColumnData → Result TableError ColumnData → ColumnData × Result TableError (Unit {0})
or_keep column (ok written) = (written, ok tt)
or_keep column (err e) = (column, err e)

-- The column is left longer where the value does not fit it. After the growth the index is in range.
unfoldable pub set_value_at :
    ℕ → Option ColumnValue → ColumnData → ColumnData × Result TableError (Unit {0})
unfolding grow set_value mark_deleted or_keep
set_value_at index none column = (mark_deleted index (grow index column), ok tt)
set_value_at index (some value) column =
    or_keep (grow index column) (set_value index value (grow index column))

-- `vec.get(index)?.as_ref()`
unfoldable pub read {ℓ} : {A : Type ℓ} → List (Option A) → ℕ → Option A
unfolding get_elem?
read vec index = elim (get_elem? vec index) [ none ↦ none | some slot ↦ slot ]

unfoldable pub get_value : ℕ → ColumnData → Option ColumnValue
unfolding read
get_value index (u64_column vec) = Option.map u64 (read vec index)
get_value index (i32_column vec) = Option.map i32 (read vec index)
get_value index (string_column vec) = Option.map string (read vec index)
get_value index (bool_column vec) = Option.map bool (read vec index)
get_value index (f64_column vec) = Option.map f64 (read vec index)
