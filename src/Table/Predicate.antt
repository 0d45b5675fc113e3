-- ===== src/Table/Predicate.antt =====
-- src/table_runtime.rs: predicates evaluated on the columns, without materialized rows.
pub mod Indexed
pub mod Equality
pub mod Selected
use tricti.Base.{
  ℕ, ◌+◌, Bool, false, ◌||◌, ◌&&◌, not, Option, none, some, List, [], ◌∷◌, ◌++◌, String, text_key,
  number_key, ◌==◌, if◌then◌else◌, retain,
}
use tricti.Base.Result.{Result, ok, err}
use tricti.Base.HashMap.{HashMap, get}
use tricti.Base.HashSet
use tricti.Base.HashSet.{contains}
use tricti.Ast.{Expression, identifier, literal, BinaryOperator}
use tricti.Table.Value.{
  ColumnValue, value_key, values_equal, compare_column_values, unwrap_or_false,
}
use tricti.Table.Bitmap
use tricti.Table.Bitmap.{RowBitmap}
use tricti.Table.Column.{get_value}
use tricti.Table.Error.{TableError, column_not_found}
use tricti.Table.Schema.{
  is_key, find_column, literal_to_column_value, normalize_value_for_column, is_computed_column,
}
use tricti.Table.State.{TableRuntime, LazyEvaluation}
use tricti.Table.Index.{set_rows}
use tricti.Table.Rows.{find_by_primary_key}
use tricti.Table.Read.{get_row}

pub data PredicateResult : Type 0 where
  bitmap : RowBitmap → PredicateResult
  index_lookup : (row_ids : List ℕ) → PredicateResult
  full_scan : PredicateResult

-- `for id in right_ids { if !left_ids.contains(&id) { left_ids.push(id) } }`
unfoldable pub push_new : List ℕ → List ℕ → List ℕ
unfolding HashSet.insert
push_new left_ids [] = left_ids
push_new left_ids (id ∷ right_ids) = push_new (HashSet.insert id left_ids) right_ids

unfoldable pub intersect_predicate_results : PredicateResult → PredicateResult → PredicateResult
unfolding Bitmap.and retain contains
intersect_predicate_results (bitmap left) (bitmap right) = bitmap (Bitmap.and left right)
intersect_predicate_results (index_lookup left_ids) (index_lookup right_ids) =
    index_lookup (retain (λ id. contains right_ids id) left_ids)
intersect_predicate_results _ _ = full_scan

unfoldable pub union_predicate_results : PredicateResult → PredicateResult → PredicateResult
unfolding Bitmap.or push_new
union_predicate_results (bitmap left) (bitmap right) = bitmap (Bitmap.or left right)
union_predicate_results (index_lookup left_ids) (index_lookup right_ids) =
    index_lookup (push_new left_ids right_ids)
union_predicate_results _ _ = full_scan

-- `let mut inverted = RowBitmap::all_true(n); for i … { if bits[i] { inverted.set(i, false) } }`
unfoldable pub clear_bits : (i : ℕ) → List Bool → RowBitmap → RowBitmap
unfolding Bitmap.set_bit
clear_bits i [] inverted = inverted
clear_bits i (bit ∷ bits) inverted =
    clear_bits (i + 1) bits (if bit then Bitmap.set_bit i false inverted else inverted)

unfoldable pub invert : (next_row_id : ℕ) → PredicateResult → PredicateResult
unfolding clear_bits Bitmap.all_true
invert next_row_id (bitmap equal) = bitmap (clear_bits 0 equal.bits (Bitmap.all_true next_row_id))
invert next_row_id other = other

-- `same` is the test for equality with the bound; it is not the same in an index and in a column.
unfoldable pub matches :
    (same : ColumnValue → ColumnValue → Bool) → BinaryOperator → (bound value : ColumnValue) → Bool
unfolding unwrap_or_false compare_column_values
matches same BinaryOperator.less bound value = unwrap_or_false (compare_column_values bound value)
matches same BinaryOperator.less_equal bound value =
    unwrap_or_false (compare_column_values bound value) || same value bound
matches same BinaryOperator.greater bound value =
    unwrap_or_false (compare_column_values value bound)
matches same BinaryOperator.greater_equal bound value =
    unwrap_or_false (compare_column_values value bound) || same value bound
matches same _ bound value = false

unfoldable pub matching_row_ids :
    BinaryOperator → ColumnValue → HashMap ColumnValue (List ℕ) → List ℕ
unfolding matches
matching_row_ids operator value [] = []
matching_row_ids operator value ((index_value, row_ids) ∷ rest) =
    let later = matching_row_ids operator value rest in
    if matches (λ a b. a == b) operator value index_value then row_ids ++ later else later

-- The ids that one key has in an index.
unfoldable pub as_lookup : Option (List ℕ) → PredicateResult
as_lookup none = index_lookup []
as_lookup (some row_ids) = index_lookup row_ids

unfoldable pub key_lookup : Option ℕ → PredicateResult
key_lookup none = index_lookup []
key_lookup (some row_id) = index_lookup (row_id ∷ [])

module _ {Engine : Type 0} ⦃lazy : LazyEvaluation Engine⦄ where
  unfoldable pub get_value_for_row : TableRuntime Engine → ℕ → String → Option ColumnValue
  unfolding get_row get
  get_value_for_row table row_id column_name =
      if is_computed_column table.schema.columns column_name
      then elim (get_row row_id table) [ err e ↦ none | ok row ↦ get column_name row.values ]
      else elim (get column_name table.storage.columns) [
        | none ↦ none
        | some column_data ↦ get_value row_id column_data
      ]

  -- Whether a row that is not deleted has a value in the column that passes the test.
  unfoldable pub row_passes : TableRuntime Engine → String → (ColumnValue → Bool) → ℕ → Bool
  row_passes table column_name test i =
      not (contains table.deleted_rows i)
      && elim (get_value_for_row table i column_name) [ none ↦ false | some value ↦ test value ]

  unfoldable pub column_bitmap :
      TableRuntime Engine → String → (ColumnValue → Bool) → Result TableError PredicateResult
  unfolding find_column
  column_bitmap table column_name test = elim (find_column column_name table.schema.columns) [
    | none ↦ err (column_not_found column_name)
    | some column ↦ ok (
        bitmap (
          set_rows table.next_row_id 0 (row_passes table column_name test)
            (Bitmap.new table.next_row_id)))
  ]

  unfoldable pub create_equality_bitmap :
      TableRuntime Engine → String → ColumnValue → Result TableError PredicateResult
  create_equality_bitmap table column_name value =
      let target_value = normalize_value_for_column table.schema.columns column_name value in
      column_bitmap table column_name (λ col_value. values_equal col_value target_value)

  unfoldable pub create_range_bitmap :
      TableRuntime Engine
      → String
      → BinaryOperator
      → ColumnValue
      → Result TableError PredicateResult
  create_range_bitmap table column_name operator value =
      let target_value = normalize_value_for_column table.schema.columns column_name value in
      column_bitmap table column_name (matches values_equal operator target_value)

  -- The rows of a value by a secondary index, or else by the column.
  unfoldable pub unkeyed_lookup :
      TableRuntime Engine → String → ColumnValue → Result TableError PredicateResult
  unfolding get as_lookup
  unkeyed_lookup table column_name value = elim (get column_name table.secondary_indexes) [
    | none ↦ create_equality_bitmap table column_name value
    | some index ↦ ok (as_lookup (get value index.ordered_index))
  ]

  -- The index of the primary key comes first.
  unfoldable pub equality_lookup :
      TableRuntime Engine → String → ColumnValue → Result TableError PredicateResult
  unfolding is_key find_by_primary_key key_lookup
  equality_lookup table column_name value =
      if is_key table.primary_index.column_name column_name
      then ok (key_lookup (find_by_primary_key value table))
      else unkeyed_lookup table column_name value

  unfoldable pub evaluate_equality_predicate :
      TableRuntime Engine → (left right : Expression) → Result TableError PredicateResult
  evaluate_equality_predicate table (identifier column_name) (literal lit) =
      equality_lookup table column_name
        (normalize_value_for_column table.schema.columns column_name (literal_to_column_value lit))
  evaluate_equality_predicate table _ _ = ok full_scan

  unfoldable pub range_lookup :
      TableRuntime Engine
      → String
      → BinaryOperator
      → ColumnValue
      → Result TableError PredicateResult
  unfolding get matching_row_ids create_range_bitmap
  range_lookup table column_name operator value = elim (get column_name table.secondary_indexes) [
    | none ↦ create_range_bitmap table column_name operator value
    | some index ↦ ok (index_lookup (matching_row_ids operator value index.ordered_index))
  ]

  unfoldable pub evaluate_range_predicate :
      TableRuntime Engine
      → (left : Expression) → BinaryOperator
      → (right : Expression) → Result TableError PredicateResult
  evaluate_range_predicate table (identifier column_name) operator (literal lit) =
      range_lookup table column_name operator
        (normalize_value_for_column table.schema.columns column_name (literal_to_column_value lit))
  evaluate_range_predicate table _ operator _ = ok full_scan
