-- ===== src/Table/Projected.antt =====
-- src/table_runtime.rs: rows with only some columns, and the iterator over the rows of an index.
use tricti.Base.{
  ℕ, Bool, true, false, not, ◌&&◌, Option, none, some, List, [], ◌∷◌, ◌++◌, String, text_key,
  number_key, if◌then◌else◌, retain,
}
use tricti.Base.Result.{Result, ok, err, ◌>>=◌}
use tricti.Base.HashMap
use tricti.Base.HashMap.{HashMap, get}
use tricti.Base.HashSet.{contains}
use tricti.Table.Value.{ColumnValue, value_key, compare_column_values, unwrap_or_false}
use tricti.Table.Error.{TableError, row_not_found}
use tricti.Table.Bitmap.{RowBitmap, true_row_ids}
use tricti.Table.Column.{get_value}
use tricti.Table.Schema.{find_column}
use tricti.Table.State.{TableRow, TableRuntime}
use tricti.Table.Rows.{find_by_primary_key}
use tricti.Table.Scan.{range}

-- `if let Some(bound) = … { if compare(…).unwrap_or(false) { include = false } }`
unfoldable pub is_within : Option ColumnValue → (ColumnValue → Option Bool) → Bool
unfolding unwrap_or_false
is_within none test = true
is_within (some bound) test = not (unwrap_or_false (test bound))

unfoldable pub row_ids_within :
    (min_value max_value : Option ColumnValue) → HashMap ColumnValue (List ℕ) → List ℕ
unfolding is_within compare_column_values
row_ids_within min_value max_value [] = []
row_ids_within min_value max_value ((value, ids) ∷ rest) =
    let later = row_ids_within min_value max_value rest in
    if is_within min_value (λ bound. compare_column_values value bound)
      && is_within max_value (λ bound. compare_column_values bound value)
    then ids ++ later
    else later

module _ {Engine : Type 0} where
  unfoldable pub read_projected :
      TableRuntime Engine
      → (row_id : ℕ) → List String
      → HashMap String ColumnValue
      → Result TableError (HashMap String ColumnValue)
  unfolding find_column get HashMap.insert get_value
  read_projected table row_id [] values = ok values
  read_projected table row_id (column_name ∷ names) values =
      elim (find_column column_name table.schema.columns) [
        | none ↦ read_projected table row_id names values
        | some column ↦ elim column.is_computed [
          | true ↦ read_projected table row_id names values
          | false ↦ elim (get column_name table.storage.columns) [
            | none ↦ read_projected table row_id names values
            | some column_data ↦ elim (get_value row_id column_data) [
              | some value ↦
                  read_projected table row_id names (HashMap.insert column_name value values)
              | none ↦ err (row_not_found row_id)
            ]
          ]
        ]
      ]

  unfoldable pub get_row_projected :
      (row_id : ℕ) → List String → TableRuntime Engine → Result TableError TableRow
  unfolding read_projected
  get_row_projected row_id projection_columns table =
      read_projected table row_id projection_columns []
      >>= (λ values. ok (record { values = values }))

-- The iterator: the row ids that are left, and the columns of the rows.
pub record IndexedIterator (Engine : Type 0) : Type 0 where
  pub table : TableRuntime Engine
  pub row_ids : List ℕ
  pub projection_columns : List String

module _ {Engine : Type 0} where
  unfoldable pub from_bitmap :
      TableRuntime Engine → RowBitmap → List String → IndexedIterator Engine
  unfolding true_row_ids
  from_bitmap table bitmap projection_columns = record {
    table = table;
    row_ids = true_row_ids bitmap;
    projection_columns = projection_columns;
  }

  unfoldable pub primary_key_lookup :
      TableRuntime Engine → ColumnValue → List String → IndexedIterator Engine
  unfolding find_by_primary_key
  primary_key_lookup table key projection_columns = record {
    table = table;
    row_ids = elim (find_by_primary_key key table) [ none ↦ [] | some row_id ↦ row_id ∷ [] ];
    projection_columns = projection_columns;
  }

  unfoldable pub range_scan :
      TableRuntime Engine
      → String
      → (min_value max_value : Option ColumnValue) → List String
      → IndexedIterator Engine
  unfolding get row_ids_within retain contains range
  range_scan table column_name min_value max_value projection_columns = record {
    table = table;
    row_ids = elim (get column_name table.secondary_indexes) [
      | some index ↦ row_ids_within min_value max_value index.ordered_index
      | none ↦ retain (λ i. not (contains table.deleted_rows i)) (range 0 table.next_row_id)
    ];
    projection_columns = projection_columns;
  }

  -- The first row id that gives a row, and the row ids after it.
  unfoldable pub advance :
      TableRuntime Engine → List String → List ℕ → Option (ℕ × TableRow) × List ℕ
  unfolding contains get_row_projected
  advance table names [] = (none, [])
  advance table names (row_id ∷ row_ids) =
      let later = advance table names row_ids in
      if contains table.deleted_rows row_id
      then later
      else elim (get_row_projected row_id names table) [
        | err e ↦ later
        | ok row ↦ (some (row_id, row), row_ids)
      ]

  unfoldable pub next : IndexedIterator Engine → Option (ℕ × TableRow) × IndexedIterator Engine
  unfolding advance
  next iterator =
      let found = advance iterator.table iterator.projection_columns iterator.row_ids in
      (found.0, record iterator { row_ids = found.1 })
