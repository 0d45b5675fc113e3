-- ===== src/Table/Store/Stored.antt =====
-- src/table_runtime.rs: what the loops over the values of a row leave in the storage.

use tricti.Base.{
  ℕ, ◌≡◌, ◌≢◌, refl, ap, ◌∙◌, Bool, true, ◌&&◌, Option, none, some, [], ◌∷◌, String, ◌==◌, text_key,
  number_key, if◌then◌else◌, nat_beq, arith, Option-cases, inl, inr, eq_iff,
}
use tricti.Base.Result.{ok, err}
use tricti.Base.HashMap
use tricti.Base.HashMap.{HashMap, get, contains_key, get-insert, get-map_values, HasUniqueKeys}
use tricti.Table.Value.{ColumnValue, value_key}
use tricti.Table.Column.{ColumnData, set_value_at, mark_deleted, get_value}
use tricti.Table.Column.Cells.{set_value_at_cells, set_value_at_other, get_value-mark_deleted}
use tricti.Table.Store.{cell, Written, and_then, store_value, store_into, put_back, store_values}

pub cell-insert :
    (new name : String) (column : ColumnData) (j : ℕ) (columns : HashMap String ColumnData)
    → cell name j (HashMap.insert new column columns)
      ≡ (if new == name then get_value j column else cell name j columns)
unfolding cell
cell-insert new name column j columns = ground (arith, get-insert new name column columns)

pub cell-some :
    (name : String) (column : ColumnData) (j : ℕ) (columns : HashMap String ColumnData)
    → get name columns ≡ some column
    → cell name j columns ≡ get_value j column
unfolding cell
cell-some name column j columns e = rw (e, cell) refl

pub cell-mark_deleted :
    (i j : ℕ) (name : String) (columns : HashMap String ColumnData)
    → cell name j (HashMap.map_values (mark_deleted i) columns)
      ≡ (if nat_beq i j then none else cell name j columns)
unfolding cell
cell-mark_deleted i j name columns = elim (Option-cases (get name columns)) [
  | inl e ↦ ground (arith, get-map_values name (mark_deleted i) columns, e)
  | inr (column, e) ↦
      ground
        (arith, get-map_values name (mark_deleted i) columns, e, get_value-mark_deleted i j column)
]

pub contains_key-mark_deleted :
    (i : ℕ) (name : String) (columns : HashMap String ColumnData)
    → contains_key name (HashMap.map_values (mark_deleted i) columns) ≡ contains_key name columns
unfolding contains_key
contains_key-mark_deleted i name columns =
    ground (arith, get-map_values name (mark_deleted i) columns)

-- A loop keeps what each of its turns keeps.
pub and_then-keeps :
    {P : HashMap String ColumnData → Type 0} (first : Written)
    (next : HashMap String ColumnData → Written)
    → P first.0
    → ((columns : HashMap String ColumnData) → P columns → P (next columns).0)
    → P (and_then first next).0
unfolding and_then
and_then-keeps (columns, err e) next h step = h
and_then-keeps (columns, ok done) next h step = step columns h

pub and_then_ok :
    (first : Written) (next : HashMap String ColumnData → Written)
    → (and_then first next).1 ≡ ok tt
    → (first.1 ≡ ok tt) × ((and_then first next).0 ≡ (next first.0).0) × ((next first.0).1 ≡ ok tt)
unfolding and_then
and_then_ok (columns, err e) next h = cc
and_then_ok (columns, ok tt) next h = (refl, refl, h)

store_into-cell_other :
    (i j : ℕ) (new name : String) (v : ColumnValue) (columns : HashMap String ColumnData)
    (found : Option ColumnData)
    → get new columns ≡ found
    → i ≢ j
    → cell name j (store_into i new v columns found).0 ≡ cell name j columns
unfolding store_into put_back
store_into-cell_other i j new name v columns none e apart = refl
store_into-cell_other i j new name v columns (some column) e apart = ground (
  arith,
  cell-insert new name (set_value_at i (some v) column).0 j columns,
  cell-some new column j columns e,
  eq_iff new name,
  ap (λ n. cell n j columns) {x = new} {y = name},
  set_value_at_other i j v column apart,
)

store_into-cell :
    (i : ℕ) (new name : String) (v : ColumnValue) (columns : HashMap String ColumnData)
    (found : Option ColumnData)
    → get new columns ≡ found
    → (store_into i new v columns found).1 ≡ ok tt
    → cell name i (store_into i new v columns found).0
      ≡ (if new == name && contains_key name columns then some v else cell name i columns)
unfolding store_into put_back contains_key
store_into-cell i new name v columns none e stored = ground (arith, e, eq_iff new name)
store_into-cell i new name v columns (some column) e stored = ground (
  arith,
  cell-insert new name (set_value_at i (some v) column).0 i columns,
  (set_value_at_cells i i v column).0 stored,
  eq_iff new name,
  e,
)

-- The other rows keep their values, whether or not the loop ends with an error.
pub store_values-cell_other :
    (i j : ℕ) (name : String) (values : HashMap String ColumnValue)
    (columns : HashMap String ColumnData)
    → i ≢ j
    → cell name j (store_values i values columns).0 ≡ cell name j columns
unfolding store_values store_value
store_values-cell_other i j name [] columns apart = refl
store_values-cell_other i j name ((new, v) ∷ values) columns apart =
    and_then-keeps {P = λ now. cell name j now ≡ cell name j columns} (store_value i new v columns)
      (store_values i values)
      (store_into-cell_other i j new name v columns (get new columns) refl apart)
      (λ now h. store_values-cell_other i j name values now apart ∙ h)

store_into-contains_key :
    (i : ℕ) (new name : String) (v : ColumnValue) (columns : HashMap String ColumnData)
    (found : Option ColumnData)
    → get new columns ≡ found
    → contains_key name (store_into i new v columns found).0 ≡ contains_key name columns
unfolding store_into put_back contains_key
store_into-contains_key i new name v columns none e = refl
store_into-contains_key i new name v columns (some column) e =
    ground
      (arith, get-insert new name (set_value_at i (some v) column).0 columns, e, eq_iff new name)

-- The loop makes no column and removes none.
pub store_values-contains_key :
    (i : ℕ) (name : String) (values : HashMap String ColumnValue)
    (columns : HashMap String ColumnData)
    → contains_key name (store_values i values columns).0 ≡ contains_key name columns
unfolding store_values store_value
store_values-contains_key i name [] columns = refl
store_values-contains_key i name ((new, v) ∷ values) columns =
    and_then-keeps {P = λ now. contains_key name now ≡ contains_key name columns}
      (store_value i new v columns) (store_values i values)
      (store_into-contains_key i new name v columns (get new columns) refl)
      (λ now h. store_values-contains_key i name values now ∙ h)

-- The value that a place has after a value was given for it, if it is there.
abbrev pub overwritten :
    (given : Option ColumnValue) (is_there : Bool) (old : Option ColumnValue) → Option ColumnValue
overwritten (some v) true old = some v
overwritten _ _ old = old

-- A loop that ends well has stored every value whose column there is, and nothing else.
pub store_values-cell :
    (i : ℕ) (name : String) (values : HashMap String ColumnValue)
    (columns : HashMap String ColumnData)
    → HasUniqueKeys values
    → (store_values i values columns).1 ≡ ok tt
    → cell name i (store_values i values columns).0
      ≡ overwritten (get name values) (contains_key name columns) (cell name i columns)
unfolding store_values store_value get
store_values-cell i name [] columns unique done = refl
store_values-cell i name ((new, v) ∷ values) columns unique done =
    let parts = and_then_ok (store_value i new v columns) (store_values i values) done in
    step _ _ _ _ (ap (cell name i) parts.1)
      (store_values-cell i name values (store_value i new v columns).0 unique.1 parts.2)
      (store_into-cell i new name v columns (get new columns) refl parts.0)
      (store_into-contains_key i new name v columns (get new columns) refl) unique.0
  where
    step :
        (now later here : Option ColumnValue) (there : Bool)
        → now ≡ later
        → later ≡ overwritten (get name values) there here
        → here ≡ (if new == name && contains_key name columns then some v else cell name i columns)
        → there ≡ contains_key name columns
        → get new values ≡ none
        → now
          ≡ overwritten
              (if new == name then some v else get name values)
              (contains_key name columns)
              (cell name i columns)
    step now later here there a b c d e =
        ground (arith, a, b, c, d, e, eq_iff new name, ap (λ n. get n values) {x = new} {y = name})
