-- ===== src/Table/Predicate/Equality.antt =====
-- src/table_runtime.rs: an equality on a column without an index, by bitmap and by scan.
use tricti.Base.{
  ℕ, ◌≡◌, refl, sym, ap, ◌∙◌, Bool, true, false, none, some, List, [], ◌∷◌, String, text_key,
  number_key, arith, Bool-cases, Option-cases, inl, inr, if◌then◌else◌, retain, ◌==◌,
}
use tricti.Base.HashMap.{get}
use tricti.Base.HashSet.{contains}
use tricti.Base.Result.{Result, ok, err, ◌>>=◌}
use tricti.Ast.{
  AstType, TableColumn, TableDef, identifier, literal, binary_op, Literal, BinaryOperator,
}
use tricti.Table.Value.{ColumnValue, u64, i32, string, bool, f64, values_equal}
use tricti.Table.Bitmap
use tricti.Table.Error.{TableError}
use tricti.Table.Schema.{
  is_key, find_column, literal_to_column_value, normalize_value_for_column, normalize_for_type,
  normalize_for_column_type, is_computed_column, to_f64, to_u64, to_i32,
}
use tricti.Table.State.{TableRow, TableRuntime, LazyEvaluation}
use tricti.Table.Rows.{is_missing}
use tricti.Table.Store.{cell}
use tricti.Table.Store.Complete.{is_stored}
use tricti.Table.Read.{get_row}
use tricti.Table.Read.Whole.{is_computed_named, get_row-get}
use tricti.Table.Calls.{is_live-is_missing}
use tricti.Table.Filled.{IsFilled, Reached-IsFilled}
use tricti.Table.Steps.{Reached}
use tricti.Table.Scan.{
  range, push_row, push_filtered, rows_at, filtered_rows_at, scan_filtered, has_value,
  scan_by_column_value,
}
use tricti.Table.Index.{set_rows}
use tricti.Table.Predicate.{
  bitmap, get_value_for_row, row_passes, column_bitmap, create_equality_bitmap, unkeyed_lookup,
  equality_lookup, evaluate_equality_predicate,
}
use tricti.Table.Predicate.Selected.{true_row_ids-set_rows}
use tricti.Table.Evaluate.{evaluate_predicate_columnar, selected_rows, scan_filtered_optimized}

normalize_for_type_idem :
    (target : String) (v : ColumnValue)
    → normalize_for_type target (normalize_for_type target v) ≡ normalize_for_type target v
unfolding normalize_for_type to_f64 to_u64 to_i32
normalize_for_type_idem target (u64 v) = ground arith
normalize_for_type_idem target (i32 v) = ground arith
normalize_for_type_idem target (string v) = ground arith
normalize_for_type_idem target (bool v) = ground arith
normalize_for_type_idem target (f64 v) = ground arith

normalize_for_column_type_idem :
    (type : AstType) (v : ColumnValue)
    → normalize_for_column_type type (normalize_for_column_type type v)
      ≡ normalize_for_column_type type v
unfolding normalize_for_column_type
normalize_for_column_type_idem (AstType.identifier name args) v = normalize_for_type_idem name v
normalize_for_column_type_idem _ v = refl

normalize_none :
    (columns : List TableColumn) (name : String) (v : ColumnValue)
    → find_column name columns ≡ none
    → normalize_value_for_column columns name v ≡ v
unfolding normalize_value_for_column
normalize_none columns name v e = rw (e, normalize_value_for_column) refl

normalize_some :
    (columns : List TableColumn) (name : String) (column : TableColumn) (v : ColumnValue)
    → find_column name columns ≡ some column
    → normalize_value_for_column columns name v ≡ normalize_for_column_type column.column_type v
unfolding normalize_value_for_column
normalize_some columns name column v e = rw (e, normalize_value_for_column) refl

normalize_idem :
    (columns : List TableColumn) (name : String) (v : ColumnValue)
    → normalize_value_for_column columns name (normalize_value_for_column columns name v)
      ≡ normalize_value_for_column columns name v
normalize_idem columns name v = elim (Option-cases (find_column name columns)) [
  | inl e ↦ normalize_none columns name (normalize_value_for_column columns name v) e
  | inr (column, e) ↦
      normalize_some columns name column (normalize_value_for_column columns name v) e
      ∙ ap (normalize_for_column_type column.column_type) (normalize_some columns name column v e)
      ∙ normalize_for_column_type_idem column.column_type v
      ∙ sym (normalize_some columns name column v e)
]

find_stored :
    (name : String) (columns : List TableColumn)
    → is_stored name columns ≡ true
    → is_computed_named name columns ≡ false
    → (column : TableColumn) × (find_column name columns ≡ some column)
      × (column.is_computed ≡ false)
unfolding find_column is_stored is_computed_named
find_stored name [] h clear = cc
find_stored name (column ∷ columns) h clear = elim (Bool-cases (column.name == name)) [
  | inl e ↦ (column, ground (arith, e), ground (arith, e, clear))
  | inr e ↦
      let (found, is_found, stored) =
        find_stored name columns (ground (arith, h, e)) (ground (arith, clear)) in
      (found, ground (arith, e, is_found), stored)
]

push_selected :
    (p : TableRow → Bool) (q : Bool) (r : ℕ) (read : Result TableError TableRow)
    (rest : List (ℕ × TableRow))
    → ((row : TableRow) → read ≡ ok row → p row ≡ q)
    → (if q then push_row r read rest else rest) ≡ push_filtered p r read rest
unfolding push_row push_filtered
push_selected p true r (err e) rest same = refl
push_selected p false r (err e) rest same = refl
push_selected p true r (ok row) rest same = rw (same row refl) refl
push_selected p false r (ok row) rest same = rw (same row refl) refl

module _ {Engine : Type 0} ⦃lazy : LazyEvaluation Engine⦄ (t : TableRuntime Engine) where
  rows_at-if :
      (wanted : Bool) (r : ℕ) (ids : List ℕ)
      → rows_at t (if wanted then r ∷ ids else ids) ≡ (
          if contains t.deleted_rows r
          then rows_at t ids
          else if wanted
          then push_row r (get_row r t) (rows_at t ids)
          else rows_at t ids)
  unfolding rows_at
  rows_at-if true r ids = refl
  rows_at-if false r ids = elim (Bool-cases (contains t.deleted_rows r)) [
    | inl e ↦ rw e refl
    | inr e ↦ rw e refl
  ]

  -- The rows at chosen ids are those that a predicate accepts, where it accepts what was chosen.
  rows_at-retain :
      (p : TableRow → Bool) (q : ℕ → Bool) (ids : List ℕ)
      → ((r : ℕ) (row : TableRow)
          → contains t.deleted_rows r ≡ false
          → get_row r t ≡ ok row
          → p row ≡ q r)
      → rows_at t (retain q ids) ≡ filtered_rows_at p t ids
  unfolding retain filtered_rows_at rows_at
  rows_at-retain p q [] same = refl
  rows_at-retain p q (r ∷ ids) same =
      rows_at-if (q r) r (retain q ids) ∙ elim (Bool-cases (contains t.deleted_rows r)) [
        | inl e ↦ rw e (rows_at-retain p q ids same)
        | inr e ↦ rw e (
            ap (λ rest. if q r then push_row r (get_row r t) rest else rest)
              (rows_at-retain p q ids same)
            ∙ push_selected p (q r) r (get_row r t) (filtered_rows_at p t ids)
                (λ row. same r row e))
      ]

  get_value_for_row-cell :
      (name : String) (r : ℕ)
      → is_stored name t.schema.columns ≡ true
      → is_computed_named name t.schema.columns ≡ false
      → get_value_for_row t r name ≡ cell name r t.storage.columns
  unfolding get_value_for_row cell is_computed_column
  get_value_for_row-cell name r stored clear =
      let (column, found, is_plain) = find_stored name t.schema.columns stored clear in
      ground (arith, found, is_plain)

  -- What is compared in a column is what the row gives.
  row_passes-has_value :
      (name : String) (value v : ColumnValue) (r : ℕ) (row : TableRow)
      → get_value_for_row t r name ≡ some v
      → get name row.values ≡ some v
      → contains t.deleted_rows r ≡ false
      → has_value name value row ≡ row_passes t name (λ w. values_equal w value) r
  unfolding has_value row_passes
  row_passes-has_value name value v r row here given there = ground (arith, here, given, there)

  column_bitmap_found :
      (name : String) (column : TableColumn) (test : ColumnValue → Bool)
      → find_column name t.schema.columns ≡ some column
      → column_bitmap t name test
        ≡ ok (bitmap (set_rows t.next_row_id 0 (row_passes t name test) (Bitmap.new t.next_row_id)))
  unfolding column_bitmap
  column_bitmap_found name column test e = rw (e, column_bitmap) refl

  create_equality_bitmap_stored :
      (name : String) (v : ColumnValue)
      → is_stored name t.schema.columns ≡ true
      → is_computed_named name t.schema.columns ≡ false
      → create_equality_bitmap t name (normalize_value_for_column t.schema.columns name v)
        ≡ ok (
            bitmap (
              set_rows t.next_row_id 0
                (row_passes t name
                  (λ w. values_equal w (normalize_value_for_column t.schema.columns name v)))
                (Bitmap.new t.next_row_id)))
  unfolding create_equality_bitmap
  create_equality_bitmap_stored name v stored clear =
      let (column, found, is_plain) = find_stored name t.schema.columns stored clear in
      rw (normalize_idem t.schema.columns name v) (column_bitmap_found name column _ found)

  readable : (r : ℕ) (row : TableRow) → get_row r t ≡ ok row → is_missing r t ≡ false
  unfolding get_row
  readable r row read = elim (Bool-cases (is_missing r t)) [
    | inl e ↦ absurd (ground (arith, read, e))
    | inr e ↦ e
  ]

  selected_rows-has_value :
      (name : String) (value : ColumnValue)
      → IsFilled t
      → is_stored name t.schema.columns ≡ true
      → is_computed_named name t.schema.columns ≡ false
      → selected_rows t (
          bitmap (
            set_rows t.next_row_id 0
              (row_passes t name (λ w. values_equal w value))
              (Bitmap.new t.next_row_id)))
        ≡ scan_filtered (has_value name value) t
  unfolding selected_rows scan_filtered
  selected_rows-has_value name value filled stored clear =
      ap (rows_at t) (true_row_ids-set_rows t.next_row_id _)
      ∙ rows_at-retain (has_value name value) _ (range 0 t.next_row_id) (λ r row there read.
        let (v, here) = (filled.2 name stored).1 r (is_live-is_missing t r (readable r row read)) in
        row_passes-has_value name value v r row (get_value_for_row-cell name r stored clear ∙ here)
          (get_row-get t r row name v read here stored clear) there)

  unkeyed_lookup_bitmap :
      (name : String) (v : ColumnValue)
      → get name t.secondary_indexes ≡ none
      → unkeyed_lookup t name v ≡ create_equality_bitmap t name v
  unfolding unkeyed_lookup
  unkeyed_lookup_bitmap name v e = rw (e, unkeyed_lookup) refl

  -- In every table that the calls make: for a column that is stored and has no index, the optimized
  -- scan for an equality gives the rows, in the same order, that the scan by value gives.
  pub equality_agrees :
      {schema : TableDef} (name : String) (lit : Literal)
      → Reached schema t
      → is_stored name t.schema.columns ≡ true
      → is_computed_named name t.schema.columns ≡ false
      → is_key t.primary_index.column_name name ≡ false
      → get name t.secondary_indexes ≡ none
      → scan_filtered_optimized (binary_op (identifier name) BinaryOperator.equal (literal lit)) t
        ≡ ok (scan_by_column_value name (literal_to_column_value lit) t)
  unfolding scan_filtered_optimized evaluate_predicate_columnar evaluate_equality_predicate
      equality_lookup scan_by_column_value
  equality_agrees name lit reached stored clear no_key no_index =
      let v = literal_to_column_value lit in
      rw no_key (
        ap (λ result. result >>= (λ found. ok (selected_rows t found)))
          (unkeyed_lookup_bitmap name _ no_index
            ∙ create_equality_bitmap_stored name v stored clear)
        ∙ ap ok (selected_rows-has_value name _ (Reached-IsFilled reached) stored clear))
