-- ===== src/Table/Read.antt =====
-- src/table_runtime.rs: a new table, and what is read of a table's rows.
pub mod Whole
use mathlib.Core.Option
use tricti.Base.{
  ℕ, true, false, Option, none, some, List, [], ◌∷◌, String, ◌<>◌, text_key, number_key,
  if◌then◌else◌, any,
}
use tricti.Base.Result.{Result, ok, err, ◌>>=◌}
use tricti.Base.HashMap
use tricti.Base.HashMap.{HashMap, get}
use tricti.Ast.{TableColumn, TableDef}
use tricti.Table.Value.{ColumnValue, value_key}
use tricti.Table.Error.{TableError, type_mismatch, column_not_found, row_not_found}
use tricti.Table.Column.{ColumnData, new_for_type, get_value}
use tricti.Table.Schema.{is_computed_column, type_name_or, primary_key_column}
use tricti.Table.State.{TableRow, TableRuntime, LazyEvaluation}
use tricti.Table.Rows.{is_missing, find_by_primary_key}

unfoldable pub empty_columns :
    List TableColumn → HashMap String ColumnData → HashMap String ColumnData
unfolding HashMap.insert new_for_type type_name_or
empty_columns [] made = made
empty_columns (column ∷ columns) made =
    empty_columns columns
      (HashMap.insert column.name (new_for_type (type_name_or "String" column.column_type)) made)

unfoldable pub map_evaluation_error :
    String → Result String ColumnValue → Result TableError ColumnValue
map_evaluation_error column_name (ok value) = ok value
map_evaluation_error column_name (err e) =
    err (type_mismatch column_name "computed value" ("evaluation error: " <> e))

-- `Err(_) => continue`
unfoldable pub evaluated : Result String ColumnValue → Option ColumnValue
evaluated (ok value) = some value
evaluated (err e) = none

unfoldable pub read_stored :
    (row_id : ℕ) → Option ColumnData → Result TableError (Option ColumnValue)
unfolding get_value
read_stored row_id none = ok none
read_stored row_id (some column_data) = elim (get_value row_id column_data) [
  | some value ↦ ok (some value)
  | none ↦ err (row_not_found row_id)
]

unfoldable pub put_found :
    String → Option ColumnValue → HashMap String ColumnValue → HashMap String ColumnValue
unfolding HashMap.insert
put_found name none values = values
put_found name (some value) values = HashMap.insert name value values

-- `Ok(TableRow { values })`
abbrev pub as_row : HashMap String ColumnValue → Result TableError TableRow
as_row values = ok (record { values = values })

module _ {Engine : Type 0} ⦃lazy : LazyEvaluation Engine⦄ where
  unfoldable pub new_with : TableDef → Option Engine → TableRuntime Engine
  unfolding empty_columns primary_key_column
  new_with schema engine = record {
    schema = schema;
    storage = record { columns = empty_columns schema.columns [] };
    primary_index = record { column_name = primary_key_column schema.columns; index = [] };
    secondary_indexes = [];
    row_count = 0;
    deleted_rows = [];
    next_row_id = 0;
    computed_engine = engine;
  }

  unfoldable pub new_computed :
      TableDef → Result String Engine → Result TableError (TableRuntime Engine)
  unfolding new_with
  new_computed schema (ok engine) = ok (new_with schema (some engine))
  new_computed schema (err e) = err (
      type_mismatch "computed_engine" "valid computed column configuration"
        ("evaluation error: " <> e))

  unfoldable pub new : TableDef → Result TableError (TableRuntime Engine)
  unfolding any new_computed
  new schema =
      if any (λ column. column.is_computed) schema.columns
      then new_computed schema (lazy.build_engine schema)
      else ok (new_with schema none)

  -- The engine is cloned for each column, so nothing of it changes.
  unfoldable pub evaluate_column :
      TableRuntime Engine → (row_id : ℕ) → String → Option Engine → Option ColumnValue
  unfolding evaluated
  evaluate_column table row_id column_name none = none
  evaluate_column table row_id column_name (some engine) =
      evaluated (lazy.get_computed_value column_name row_id table.storage engine).1

  -- The value of a column in a row, or nothing where the column is skipped.
  unfoldable pub read_column :
      TableRuntime Engine → (row_id : ℕ) → TableColumn → Result TableError (Option ColumnValue)
  unfolding evaluate_column read_stored get
  read_column table row_id column = elim column.is_computed [
    | true ↦ ok (evaluate_column table row_id column.name table.computed_engine)
    | false ↦ read_stored row_id (get column.name table.storage.columns)
  ]

  -- The loop of `get_row`.
  unfoldable pub read_values :
      TableRuntime Engine
      → (row_id : ℕ) → List TableColumn
      → HashMap String ColumnValue
      → Result TableError (HashMap String ColumnValue)
  unfolding put_found
  read_values table row_id [] values = ok values
  read_values table row_id (column ∷ columns) values =
      read_column table row_id column
      >>= (λ found. read_values table row_id columns (put_found column.name found values))

  unfoldable pub get_row : (row_id : ℕ) → TableRuntime Engine → Result TableError TableRow
  get_row row_id table =
      if is_missing row_id table
      then err (row_not_found row_id)
      else read_values table row_id table.schema.columns [] >>= as_row

  unfoldable pub get_by_primary_key :
      ColumnValue → TableRuntime Engine → Result TableError (ℕ × TableRow)
  unfolding find_by_primary_key get_row
  get_by_primary_key key table = elim (find_by_primary_key key table) [
    | none ↦ err (row_not_found 0)
    | some row_id ↦ get_row row_id table >>= (λ row. ok (row_id, row))
  ]

  unfoldable pub stored_value :
      (row_id : ℕ) (column_name : String) → TableRuntime Engine → Result TableError ColumnValue
  unfolding get get_value
  stored_value row_id column_name table = elim (get column_name table.storage.columns) [
    | none ↦ err (column_not_found column_name)
    | some column_data ↦ elim (get_value row_id column_data) [
      | none ↦ err (row_not_found row_id)
      | some value ↦ ok value
    ]
  ]

  -- A value that the engine computes may change the engine.
  unfoldable pub computed_value :
      (row_id : ℕ) (column_name : String)
      → TableRuntime Engine
      → Option Engine
      → TableRuntime Engine × Result TableError ColumnValue
  unfolding map_evaluation_error
  computed_value row_id column_name table none = (
    table,
    err (type_mismatch column_name "computed column support" "no computed engine available"),
  )
  computed_value row_id column_name table (some engine) =
      let computed = lazy.get_computed_value column_name row_id table.storage engine in
      (
        record table { computed_engine = some computed.0 },
        map_evaluation_error column_name computed.1,
      )

  unfoldable pub get_column_value :
      (row_id : ℕ) (column_name : String)
      → TableRuntime Engine
      → TableRuntime Engine × Result TableError ColumnValue
  unfolding is_computed_column computed_value stored_value
  get_column_value row_id column_name table =
      if is_computed_column table.schema.columns column_name
      then computed_value row_id column_name table table.computed_engine
      else (table, stored_value row_id column_name table)

  -- `if let Some(ref mut engine) = self.computed_engine { … }`
  unfoldable pub with_engine : (Engine → Engine) → TableRuntime Engine → TableRuntime Engine
  with_engine change table = record table {
    computed_engine = Option.map change table.computed_engine;
  }

  unfoldable pub mark_column_dirty : String → TableRuntime Engine → TableRuntime Engine
  unfolding with_engine
  mark_column_dirty column_name table =
      with_engine (λ engine. lazy.mark_engine_column_dirty column_name engine) table

  unfoldable pub mark_row_dirty : String → ℕ → TableRuntime Engine → TableRuntime Engine
  unfolding with_engine
  mark_row_dirty column_name row_id table =
      with_engine (λ engine. lazy.mark_engine_row_dirty column_name row_id engine) table

  unfoldable pub get_computed_cache_stats : TableRuntime Engine → HashMap String ℕ
  get_computed_cache_stats table = elim table.computed_engine [
    | none ↦ []
    | some engine ↦ lazy.cache_stats engine
  ]
