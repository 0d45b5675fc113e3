-- ===== src/Table/Evaluate.antt =====
-- src/table_runtime.rs: the evaluation of a predicate by its operators, and the scan that uses it.
use tricti.Base.{ℕ, true, none, some, List, String, text_key}
use tricti.Base.Result.{Result, ok, ◌>>=◌}
use tricti.Base.HashMap.{get}
use tricti.Ast.{Expression, identifier, literal, binary_op, BinaryOperator}
use tricti.Table.Value.{ColumnValue, value_key}
use tricti.Table.Bitmap
use tricti.Table.Error.{TableError}
use tricti.Table.Schema.{literal_to_column_value, normalize_value_for_column}
use tricti.Table.State.{TableRow, TableRuntime, LazyEvaluation}
use tricti.Table.Predicate.{
  PredicateResult, bitmap, index_lookup, full_scan, intersect_predicate_results,
  union_predicate_results, invert, create_equality_bitmap, evaluate_equality_predicate,
  evaluate_range_predicate,
}
use tricti.Table.Scan.{rows_at, scan_filtered}

module _ {Engine : Type 0} ⦃lazy : LazyEvaluation Engine⦄ where
  unfoldable pub evaluate_predicate_columnar :
      TableRuntime Engine → Expression → Result TableError PredicateResult
  evaluate_predicate_columnar table (binary_op left operator right) =
      let left_result = evaluate_predicate_columnar table left in
      let right_result = evaluate_predicate_columnar table right in
      elim operator [
        | BinaryOperator.and ↦ do
          l ← left_result
          r ← right_result
          ok (intersect_predicate_results l r)
        | BinaryOperator.or ↦ do l ← left_result; r ← right_result; ok (union_predicate_results l r)
        | BinaryOperator.equal ↦ evaluate_equality_predicate table left right
        | BinaryOperator.not_equal ↦
            evaluate_equality_predicate table left right
            >>= (λ equal. ok (invert table.next_row_id equal))
        | BinaryOperator.less ↦ evaluate_range_predicate table left BinaryOperator.less right
        | BinaryOperator.greater ↦ evaluate_range_predicate table left BinaryOperator.greater right
        | BinaryOperator.less_equal ↦
            evaluate_range_predicate table left BinaryOperator.less_equal right
        | BinaryOperator.greater_equal ↦
            evaluate_range_predicate table left BinaryOperator.greater_equal right
        | _ ↦ ok full_scan
      ]
  evaluate_predicate_columnar table _ = ok full_scan

  -- A value that the bitmap index does not know selects no row.
  unfoldable pub create_equality_bitmap_optimized :
      TableRuntime Engine → String → ColumnValue → Result TableError PredicateResult
  unfolding get create_equality_bitmap Bitmap.new
  create_equality_bitmap_optimized table column_name value =
      elim (get column_name table.secondary_indexes) [
        | none ↦ create_equality_bitmap table column_name value
        | some index ↦ elim index.bitmap_index [
          | none ↦ create_equality_bitmap table column_name value
          | some bitmap_index ↦ elim (get value bitmap_index.value_bitmaps) [
            | none ↦ ok (bitmap (Bitmap.new table.next_row_id))
            | some known ↦ ok (bitmap known)
          ]
        ]
      ]

  unfoldable pub equality_with_bitmap_indexes :
      TableRuntime Engine → (left right : Expression) → Result TableError PredicateResult
  unfolding create_equality_bitmap_optimized evaluate_predicate_columnar normalize_value_for_column
      literal_to_column_value
  equality_with_bitmap_indexes table (identifier column_name) (literal lit) =
      create_equality_bitmap_optimized table column_name
        (normalize_value_for_column table.schema.columns column_name (literal_to_column_value lit))
  equality_with_bitmap_indexes table left right =
      evaluate_predicate_columnar table (binary_op left BinaryOperator.equal right)

  unfoldable pub evaluate_predicate_with_bitmap_indexes :
      TableRuntime Engine → Expression → Result TableError PredicateResult
  unfolding equality_with_bitmap_indexes evaluate_predicate_columnar intersect_predicate_results
      union_predicate_results
  evaluate_predicate_with_bitmap_indexes table (binary_op left operator right) =
      let left_result = evaluate_predicate_with_bitmap_indexes table left in
      let right_result = evaluate_predicate_with_bitmap_indexes table right in
      elim operator [
        | BinaryOperator.equal ↦ equality_with_bitmap_indexes table left right
        | BinaryOperator.and ↦ do
          l ← left_result
          r ← right_result
          ok (intersect_predicate_results l r)
        | BinaryOperator.or ↦ do l ← left_result; r ← right_result; ok (union_predicate_results l r)
        | other ↦ evaluate_predicate_columnar table (binary_op left other right)
      ]
  evaluate_predicate_with_bitmap_indexes table predicate =
      evaluate_predicate_columnar table predicate

  -- Where no bitmap and no index tells the rows, every row is taken.
  unfoldable pub selected_rows : TableRuntime Engine → PredicateResult → List (ℕ × TableRow)
  selected_rows table (index_lookup row_ids) = rows_at table row_ids
  selected_rows table (bitmap selected) = rows_at table (Bitmap.true_row_ids selected)
  selected_rows table full_scan = scan_filtered (λ row. true) table

  unfoldable pub scan_filtered_optimized :
      Expression → TableRuntime Engine → Result TableError (List (ℕ × TableRow))
  scan_filtered_optimized predicate table =
      evaluate_predicate_columnar table predicate >>= (λ result. ok (selected_rows table result))
