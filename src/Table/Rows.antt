-- ===== src/Table/Rows.antt =====
-- src/table_runtime.rs: a table's rows, inserted, changed and deleted.
use tricti.Base.{
  ℕ, ◌+◌, ◌-◌, Bool, ◌||◌, Option, none, some, [], String, text_key, number_key, if◌then◌else◌, leb,
}
use tricti.Base.Result.{Result, ok, err}
use tricti.Base.HashMap
use tricti.Base.HashMap.{HashMap, get, contains_key}
use tricti.Base.HashSet
use tricti.Base.HashSet.{contains}
use tricti.Table.Value.{ColumnValue, value_key}
use tricti.Table.Error.{TableError, type_mismatch, duplicate_primary_key, row_not_found}
use tricti.Table.Column.{mark_deleted}
use tricti.Table.State.{TableRow, TableRuntime}
use tricti.Table.Store.{
  complete_row, Written, store_values, key_value, index_key, apply_updates, stored_key, unindex_key,
}

module _ {Engine : Type 0} where
  unfoldable pub is_missing : (row_id : ℕ) → TableRuntime Engine → Bool
  unfolding contains
  is_missing row_id table = contains table.deleted_rows row_id || leb table.next_row_id row_id

  -- After the storage has been written, or the writing has stopped with an error.
  unfoldable pub finish_insert :
      HashMap String ColumnValue
      → TableRuntime Engine
      → Written
      → TableRuntime Engine × Result TableError ℕ
  unfolding index_key
  finish_insert complete table (columns, err e) =
      (record table { storage = record { columns = columns } }, err e)
  finish_insert complete table (columns, ok done) =
      let row_id = table.next_row_id in
      (
        record table {
          storage = record { columns = columns };
          primary_index = record table.primary_index {
            index =
                index_key row_id (key_value table.primary_index.column_name complete)
                  table.primary_index.index;
          };
          row_count = table.row_count + 1;
          next_row_id = row_id + 1;
        },
        ok row_id,
      )

  unfoldable pub store_row :
      HashMap String ColumnValue → TableRuntime Engine → TableRuntime Engine × Result TableError ℕ
  store_row complete table =
      finish_insert complete table (store_values table.next_row_id complete table.storage.columns)

  -- The test for a duplicate of the primary key, where the row has one.
  unfoldable pub insert_keyed :
      HashMap String ColumnValue
      → TableRuntime Engine
      → Option ColumnValue
      → TableRuntime Engine × Result TableError ℕ
  unfolding store_row
  insert_keyed complete table none = store_row complete table
  insert_keyed complete table (some pk_value) =
      if contains_key pk_value table.primary_index.index
      then (table, err (duplicate_primary_key pk_value))
      else store_row complete table

  unfoldable pub insert_complete :
      TableRuntime Engine
      → Result TableError (HashMap String ColumnValue)
      → TableRuntime Engine × Result TableError ℕ
  unfolding insert_keyed
  insert_complete table (err e) = (table, err e)
  insert_complete table (ok complete) =
      insert_keyed complete table (key_value table.primary_index.column_name complete)

  unfoldable pub insert_row :
      TableRow → TableRuntime Engine → TableRuntime Engine × Result TableError ℕ
  unfolding insert_complete
  insert_row row table =
      insert_complete table (complete_row table.schema.columns row.values table.schema.columns [])

  unfoldable pub delete_row :
      (row_id : ℕ) → TableRuntime Engine → TableRuntime Engine × Result TableError (Unit {0})
  delete_row row_id table =
      if is_missing row_id table then (table, err (row_not_found row_id)) else (
        record table {
          primary_index = record table.primary_index {
            index =
                unindex_key
                  (stored_key table.primary_index.column_name table.storage.columns row_id)
                  table.primary_index.index;
          };
          storage = record {
            columns = HashMap.map_values (mark_deleted row_id) table.storage.columns;
          };
          deleted_rows = HashSet.insert row_id table.deleted_rows;
          row_count = table.row_count - 1;
        },
        ok tt,
      )

  unfoldable pub write_updates :
      (row_id : ℕ)
      → HashMap String ColumnValue
      → TableRuntime Engine
      → TableRuntime Engine × Result TableError (Unit {0})
  write_updates row_id updates table =
      let applied = apply_updates table.schema.columns row_id updates table.storage.columns in
      (record table { storage = record { columns = applied.0 } }, applied.1)

  -- An update of the primary key is refused.
  unfoldable pub update_keyed :
      (row_id : ℕ)
      → HashMap String ColumnValue
      → TableRuntime Engine
      → (pk_column : Option String) → TableRuntime Engine × Result TableError (Unit {0})
  unfolding write_updates
  update_keyed row_id updates table none = write_updates row_id updates table
  update_keyed row_id updates table (some pk_column) =
      if contains_key pk_column updates
      then (table, err (type_mismatch pk_column "immutable primary key" "update attempt"))
      else write_updates row_id updates table

  unfoldable pub update_row :
      (row_id : ℕ)
      → HashMap String ColumnValue
      → TableRuntime Engine
      → TableRuntime Engine × Result TableError (Unit {0})
  unfolding update_keyed
  update_row row_id updates table =
      if is_missing row_id table
      then (table, err (row_not_found row_id))
      else update_keyed row_id updates table table.primary_index.column_name

  unfoldable pub find_by_primary_key : ColumnValue → TableRuntime Engine → Option ℕ
  unfolding get
  find_by_primary_key key table = get key table.primary_index.index
