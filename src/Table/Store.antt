-- ===== src/Table/Store.antt =====
-- src/table_runtime.rs: the values of a row, completed, written to the columns and read from them.
pub mod Stored
pub mod Complete
pub mod Updated
use tricti.Base.{
  ℕ, ◌+◌, ◌-◌, Bool, true, false, ◌||◌, Option, none, some, List, [], ◌∷◌, String, text_key,
  number_key, if◌then◌else◌, leb,
}
use tricti.Base.Result.{Result, ok, err, ◌>>=◌, ◌>>◌}
use tricti.Base.HashMap
use tricti.Base.HashMap.{HashMap, get, contains_key}
use tricti.Base.HashSet
use tricti.Base.HashSet.{contains}
use tricti.Ast.{TableColumn}
use tricti.Table.Value.{ColumnValue, value_key}
use tricti.Table.Error.{
  TableError, type_mismatch, column_not_found, duplicate_primary_key, row_not_found,
}
use tricti.Table.Column.{ColumnData, set_value_at, set_value, mark_deleted, get_value}
use tricti.Table.Schema.{validate_column_value, evaluate_default_expression}
use tricti.Table.State.{PrimaryKeyIndex, TableRow, TableRuntime}

-- The value that a row stores in a column: the one that is given, if it has the column's type, or
-- the default.
unfoldable pub column_value :
    List TableColumn → HashMap String ColumnValue → TableColumn → Result TableError ColumnValue
unfolding get validate_column_value evaluate_default_expression
column_value schema values column = elim (get column.name values) [
  | some value ↦ validate_column_value schema column.name value >> ok value
  | none ↦ elim column.default_value [
    | none ↦ err (column_not_found column.name)
    | some default_expr ↦ evaluate_default_expression default_expr
  ]
]

-- The row that is stored: a value for each column that is not computed.
unfoldable pub complete_row :
    List TableColumn
    → HashMap String ColumnValue
    → List TableColumn
    → HashMap String ColumnValue
    → Result TableError (HashMap String ColumnValue)
unfolding HashMap.insert
complete_row schema values [] complete = ok complete
complete_row schema values (column ∷ columns) complete = elim column.is_computed [
  | true ↦ complete_row schema values columns complete
  | false ↦
      column_value schema values column
      >>= (λ value. complete_row schema values columns (HashMap.insert column.name value complete))
]

-- What a loop that may stop with an error leaves in the storage.
abbrev pub Written : Type 0
Written = HashMap String ColumnData × Result TableError (Unit {0})

-- The next turn of such a loop, after what the turns before have written.
unfoldable pub and_then : Written → (HashMap String ColumnData → Written) → Written
and_then (columns, err e) next = (columns, err e)
and_then (columns, ok done) next = next columns

unfoldable pub put_back :
    String → HashMap String ColumnData → ColumnData × Result TableError (Unit {0}) → Written
unfolding HashMap.insert
put_back name columns (column, result) = (HashMap.insert name column columns, result)

unfoldable pub store_into :
    (row_id : ℕ) → String → ColumnValue → HashMap String ColumnData → Option ColumnData → Written
unfolding put_back
store_into row_id name value columns none = (columns, ok tt)
store_into row_id name value columns (some column) =
    put_back name columns (set_value_at row_id (some value) column)

unfoldable pub store_value :
    (row_id : ℕ) → String → ColumnValue → HashMap String ColumnData → Written
unfolding get store_into
store_value row_id name value columns = store_into row_id name value columns (get name columns)

-- The loop over `&complete_row`. It stops at a value that does not fit its column, and leaves what
-- it has written.
unfoldable pub store_values :
    (row_id : ℕ) → HashMap String ColumnValue → HashMap String ColumnData → Written
unfolding store_value
store_values row_id [] columns = (columns, ok tt)
store_values row_id ((name, value) ∷ rest) columns =
    and_then (store_value row_id name value columns) (store_values row_id rest)

-- The value of the primary key in a row, where there is a primary key and the row has it.
unfoldable pub key_value :
    (pk_column : Option String) → HashMap String ColumnValue → Option ColumnValue
unfolding get
key_value none values = none
key_value (some pk_column) values = get pk_column values

unfoldable pub index_key :
    (row_id : ℕ) → Option ColumnValue → HashMap ColumnValue ℕ → HashMap ColumnValue ℕ
unfolding HashMap.insert
index_key row_id none index = index
index_key row_id (some pk_value) index = HashMap.insert pk_value row_id index

unfoldable pub put_value :
    String → HashMap String ColumnData → Result TableError ColumnData → Written
unfolding HashMap.insert
put_value name columns (ok column) = (HashMap.insert name column columns, ok tt)
put_value name columns (err e) = (columns, err e)

unfoldable pub update_in :
    (row_id : ℕ) → String → ColumnValue → HashMap String ColumnData → Option ColumnData → Written
unfolding put_value
update_in row_id name value columns none = (columns, err (column_not_found name))
update_in row_id name value columns (some column) =
    put_value name columns (set_value row_id value column)

unfoldable pub update_value :
    (row_id : ℕ) → String → ColumnValue → HashMap String ColumnData → Written
unfolding get update_in
update_value row_id name value columns = update_in row_id name value columns (get name columns)

-- The loop over the updates, which stops at the first that is refused.
unfoldable pub apply_updates :
    List TableColumn
    → (row_id : ℕ) → HashMap String ColumnValue
    → HashMap String ColumnData
    → Written
unfolding and_then validate_column_value update_value
apply_updates schema row_id [] columns = (columns, ok tt)
apply_updates schema row_id ((name, value) ∷ rest) columns =
    and_then
      (and_then (columns, validate_column_value schema name value) (update_value row_id name value))
      (apply_updates schema row_id rest)

-- `self.storage.columns.get(name)?.get_value(row_id)`
unfoldable pub cell : String → (row_id : ℕ) → HashMap String ColumnData → Option ColumnValue
cell name row_id columns = elim (get name columns) [
  | none ↦ none
  | some column ↦ get_value row_id column
]

-- The key that a row is indexed under, read from the storage.
unfoldable pub stored_key :
    (pk_column : Option String) → HashMap String ColumnData → (row_id : ℕ) → Option ColumnValue
stored_key none columns row_id = none
stored_key (some pk_column) columns row_id = cell pk_column row_id columns

unfoldable pub unindex_key : Option ColumnValue → HashMap ColumnValue ℕ → HashMap ColumnValue ℕ
unfolding HashMap.remove
unindex_key none index = index
unindex_key (some pk_value) index = HashMap.remove pk_value index
