-- ===== src/Table/Scan.antt =====
-- src/table_runtime.rs: the scans of a table, which give its rows one after the other.
pub mod Agree
use tricti.Base.{
  ℕ, zero, suc, ◌+◌, Bool, true, false, not, ◌&&◌, Option, none, some, List, [], ◌∷◌, String, ◌==◌,
  text_key, number_key, if◌then◌else◌, retain,
}
use tricti.Base.Result.{Result, ok, err}
use tricti.Base.HashMap.{get}
use tricti.Base.HashSet.{contains}
use tricti.Table.Value.{
  ColumnValue, value_key, values_equal, compare_column_values, unwrap_or_false,
}
use tricti.Table.Error.{TableError}
use tricti.Table.Schema.{is_key, normalize_value_for_column}
use tricti.Table.State.{TableRow, TableRuntime, LazyEvaluation}
use tricti.Table.Read.{get_row, get_by_primary_key}

-- The numbers `i..i + count`.
unfoldable pub range : (i count : ℕ) → List ℕ
range i zero = []
range i (suc count) = i ∷ range (i + 1) count

-- The row of a scan at one id, where the row can be read: `if let Ok(row) = self.get_row(row_id)`.
unfoldable pub push_row : ℕ → Result TableError TableRow → List (ℕ × TableRow) → List (ℕ × TableRow)
push_row row_id (err e) rest = rest
push_row row_id (ok row) rest = (row_id, row) ∷ rest

unfoldable pub push_filtered :
    (TableRow → Bool) → ℕ → Result TableError TableRow → List (ℕ × TableRow) → List (ℕ × TableRow)
push_filtered predicate row_id (err e) rest = rest
push_filtered predicate row_id (ok row) rest = if predicate row then (row_id, row) ∷ rest else rest

unfoldable pub has_value : String → ColumnValue → TableRow → Bool
unfolding get values_equal
has_value column_name value row = elim (get column_name row.values) [
  | none ↦ false
  | some v ↦ values_equal v value
]

unfoldable pub found_by_key : Result TableError (ℕ × TableRow) → List (ℕ × TableRow)
found_by_key (ok found) = found ∷ []
found_by_key (err e) = []

unfoldable pub passes_bound : Option ColumnValue → (ColumnValue → Option Bool) → Bool
unfolding unwrap_or_false
passes_bound none test = true
passes_bound (some bound) test = unwrap_or_false (test bound)

unfoldable pub in_range : String → (min_value max_value : Option ColumnValue) → TableRow → Bool
unfolding get passes_bound compare_column_values
in_range column_name min_value max_value row = elim (get column_name row.values) [
  | none ↦ false
  | some column_value ↦
      passes_bound min_value (λ bound. compare_column_values column_value bound)
      && passes_bound max_value (λ bound. compare_column_values bound column_value)
]

module _ {Engine : Type 0} ⦃lazy : LazyEvaluation Engine⦄ where
  -- The loop over row ids that skips those that are deleted.
  unfoldable pub rows_at : TableRuntime Engine → List ℕ → List (ℕ × TableRow)
  unfolding contains get_row push_row
  rows_at table [] = []
  rows_at table (row_id ∷ row_ids) =
      let rest = rows_at table row_ids in
      if contains table.deleted_rows row_id
      then rest
      else push_row row_id (get_row row_id table) rest

  unfoldable pub filtered_rows_at :
      (TableRow → Bool) → TableRuntime Engine → List ℕ → List (ℕ × TableRow)
  unfolding contains get_row push_filtered
  filtered_rows_at predicate table [] = []
  filtered_rows_at predicate table (row_id ∷ row_ids) =
      let rest = filtered_rows_at predicate table row_ids in
      if contains table.deleted_rows row_id
      then rest
      else push_filtered predicate row_id (get_row row_id table) rest

  unfoldable pub scan_all : TableRuntime Engine → List (ℕ × TableRow)
  unfolding rows_at range
  scan_all table = rows_at table (range 0 table.next_row_id)

  unfoldable pub scan_filtered : (TableRow → Bool) → TableRuntime Engine → List (ℕ × TableRow)
  unfolding filtered_rows_at range
  scan_filtered predicate table = filtered_rows_at predicate table (range 0 table.next_row_id)

  -- `.filter_map(|row_id| self.get_row(row_id).ok().map(|row| (row_id, row)))`
  unfoldable pub present_rows : TableRuntime Engine → List ℕ → List (ℕ × TableRow)
  unfolding get_row push_row
  present_rows table [] = []
  present_rows table (row_id ∷ row_ids) =
      push_row row_id (get_row row_id table) (present_rows table row_ids)

  unfoldable pub iter_rows : TableRuntime Engine → List (ℕ × TableRow)
  unfolding present_rows retain range contains
  iter_rows table =
      present_rows table
        (retain (λ row_id. not (contains table.deleted_rows row_id)) (range 0 table.next_row_id))

  unfoldable pub iter_filtered : (TableRow → Bool) → TableRuntime Engine → List (ℕ × TableRow)
  unfolding iter_rows retain
  iter_filtered predicate table = retain (λ entry. predicate entry.1) (iter_rows table)

  unfoldable pub scan_by_column_value :
      String → ColumnValue → TableRuntime Engine → List (ℕ × TableRow)
  unfolding is_key
  scan_by_column_value column_name value table =
      if is_key table.primary_index.column_name column_name
      then found_by_key (get_by_primary_key value table)
      else scan_filtered
          (has_value column_name
            (normalize_value_for_column table.schema.columns column_name value))
          table

  unfoldable pub scan_by_column_range :
      String
      → (min_value max_value : Option ColumnValue) → TableRuntime Engine
      → List (ℕ × TableRow)
  unfolding scan_filtered in_range
  scan_by_column_range column_name min_value max_value table =
      scan_filtered (in_range column_name min_value max_value) table
