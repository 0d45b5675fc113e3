-- ===== src/Table/Index.antt =====
-- src/table_runtime.rs: the secondary indexes, by value and by bitmap.
use tricti.Base.{
  ℕ, zero, suc, ◌+◌, Bool, true, false, ◌&&◌, not, Option, none, some, List, [], ◌∷◌, ◌++◌, String,
  length, text_key, number_key, ◌==◌, if◌then◌else◌, leb,
}
use tricti.Base.HashMap
use tricti.Base.HashMap.{HashMap, get, contains_key}
use tricti.Base.HashSet.{contains}
use tricti.Table.Value.{ColumnValue, value_key, value_lt}
use tricti.Table.Bitmap
use tricti.Table.Bitmap.{RowBitmap}
use tricti.Table.Column.{ColumnData, get_value}
use tricti.Table.State.{BitmapIndex, TableRuntime}

-- `ordered_index.entry(value).or_insert_with(Vec::new).push(row_id)`
unfoldable pub push_entry :
    ColumnValue → ℕ → HashMap ColumnValue (List ℕ) → HashMap ColumnValue (List ℕ)
unfolding value_lt
push_entry value row_id [] = (value, row_id ∷ []) ∷ []
push_entry value row_id ((key, row_ids) ∷ rest) =
    let later = push_entry value row_id rest in
    if key == value
    then (key, row_ids ++ row_id ∷ []) ∷ rest
    else if value_lt value key
    then (value, row_id ∷ []) ∷ (key, row_ids) ∷ rest
    else (key, row_ids) ∷ later

-- `for i in 0..self.next_row_id { … }` over the rows that are not deleted, with the turns left.
unfoldable pub index_rows :
    (left i : ℕ) (deleted_rows : List ℕ)
    → ColumnData
    → HashMap ColumnValue (List ℕ)
    → HashMap ColumnValue (List ℕ)
unfolding contains get_value push_entry
index_rows zero i deleted_rows column made = made
index_rows (suc left) i deleted_rows column made = index_rows left (i + 1) deleted_rows column (
    if contains deleted_rows i
    then made
    else elim (get_value i column) [ none ↦ made | some value ↦ push_entry value i made ])

-- `for i in 0..size { if test(i) { bitmap.set(i, true) } }`, with the turns left.
unfoldable pub set_rows : (left i : ℕ) → (ℕ → Bool) → RowBitmap → RowBitmap
unfolding Bitmap.set_bit
set_rows zero i test bitmap = bitmap
set_rows (suc left) i test bitmap =
    set_rows left (i + 1) test (if test i then Bitmap.set_bit i true bitmap else bitmap)

unfoldable pub set_ids : List ℕ → RowBitmap → RowBitmap
unfolding Bitmap.set_bit
set_ids [] bitmap = bitmap
set_ids (row_id ∷ row_ids) bitmap = set_ids row_ids (Bitmap.set_bit row_id true bitmap)

unfoldable pub value_bitmaps_of :
    (size : ℕ)
    → HashMap ColumnValue (List ℕ)
    → HashMap ColumnValue RowBitmap
    → HashMap ColumnValue RowBitmap
unfolding HashMap.insert set_ids Bitmap.new
value_bitmaps_of size [] made = made
value_bitmaps_of size ((value, row_ids) ∷ rest) made =
    value_bitmaps_of size rest (HashMap.insert value (set_ids row_ids (Bitmap.new size)) made)

unfoldable pub is_null_at : (deleted_rows : List ℕ) → Option ColumnData → ℕ → Bool
unfolding contains get_value
is_null_at deleted_rows none i = false
is_null_at deleted_rows (some column) i =
    not (contains deleted_rows i) && elim (get_value i column) [ none ↦ true | some value ↦ false ]

unfoldable pub ordered_index_of :
    Option ColumnData → (next_row_id : ℕ) (deleted_rows : List ℕ) → HashMap ColumnValue (List ℕ)
unfolding index_rows
ordered_index_of none next_row_id deleted_rows = []
ordered_index_of (some column) next_row_id deleted_rows =
    index_rows next_row_id 0 deleted_rows column []

module _ {Engine : Type 0} where
  unfoldable pub build_bitmap_index_for_column :
      String → HashMap ColumnValue (List ℕ) → TableRuntime Engine → BitmapIndex
  unfolding value_bitmaps_of set_rows is_null_at get Bitmap.new
  build_bitmap_index_for_column column_name ordered_index table = record {
    column_name = column_name;
    value_bitmaps = value_bitmaps_of table.next_row_id ordered_index [];
    null_bitmap =
        set_rows table.next_row_id 0
          (is_null_at table.deleted_rows (get column_name table.storage.columns))
          (Bitmap.new table.next_row_id);
  }

  -- An index that is there is left as it is.
  unfoldable pub add_secondary_index : String → TableRuntime Engine → TableRuntime Engine
  unfolding contains_key HashMap.insert ordered_index_of get build_bitmap_index_for_column
  add_secondary_index column_name table =
      if contains_key column_name table.secondary_indexes
      then table
      else let ordered_index : HashMap ColumnValue (List ℕ) =
          ordered_index_of (get column_name table.storage.columns) table.next_row_id
            table.deleted_rows in
        record table {
          secondary_indexes =
              HashMap.insert column_name
                (record {
                  column_name = column_name;
                  ordered_index = ordered_index;
                  bitmap_index =
                      if leb (length ordered_index) 100
                      then some (build_bitmap_index_for_column column_name ordered_index table)
                      else none;
                })
                table.secondary_indexes;
        }
