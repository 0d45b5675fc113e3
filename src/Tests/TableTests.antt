-- ===== src/Tests/TableTests.antt =====
-- src/table_runtime.rs: a table of three columns, run on concrete calls.
use tricti.Base.{
  ℕ, ◌≡◌, refl, Bool, true, false, none, some, List, [], ◌∷◌, String, length, ◌^◌, ◌+◌, ◌-◌,
  text_key, number_key, retain,
}
use tricti.Base.Result.{ok, err}
use tricti.Base.HashMap.{HashMap, get}
use tricti.Base.HashSet.{contains}
use tricti.Ast.{
  AstType, nil, TableColumn, TableDef, TableAnnotation, Literal, integer, identifier, literal,
  binary_op, BinaryOperator,
}
use tricti.Table.Float
use tricti.Table.Value.{ColumnValue, u64, string, bool}
use tricti.Table.Error.{duplicate_primary_key}
use tricti.Table.State.{TableRow, TableRuntime, LazyEvaluation, SecondaryIndex}
use tricti.Table.Rows.{insert_row, update_row, delete_row, is_missing, find_by_primary_key}
use tricti.Table.Store.{cell}
use tricti.Base.{any, subst, arith}
use tricti.Base.HashMap.{contains_key}
use tricti.Table.Schema.{
  normalize_value_for_column, normalize_for_type, literal_to_column_value, primary_key_column,
  is_primary, is_key,
}
use tricti.Table.Column.{ColumnData, u64_column, set_value_at}
use tricti.Table.Rows.{finish_insert}
use tricti.Table.Store.{complete_row, column_value, key_value, store_values, and_then}
use tricti.Table.Store.Complete.{is_stored}
use tricti.Table.Read.{read_values, new, new_with, get_row}
use tricti.Table.Read.Whole.{is_computed_named}
use tricti.Table.Keyed.Reached.{HasStoredKey, primary_index_right}
use tricti.Table.Inserted.{get_row-insert_row}
use tricti.Table.Scan.Agree.{iterators_agree, length-scan_all}
use tricti.Table.Predicate.Equality.{equality_agrees}
use tricti.Table.Predicate.Indexed.{index_stale}
use tricti.Table.Bitmap.Refine.{
  Plan, empty, full, put, meet, join, build, rows, selects, build_refines,
}
use tricti.Table.Column.Kind.{column_type}
use tricti.Table.Scan.{scan_all, scan_filtered, iter_rows, iter_filtered, scan_by_column_value}
use tricti.Table.Index.{add_secondary_index, build_bitmap_index_for_column}
use tricti.Table.Predicate.{
  unkeyed_lookup, evaluate_equality_predicate, equality_lookup, create_equality_bitmap,
  column_bitmap, intersect_predicate_results,
}
use tricti.Table.Bitmap.{true_row_ids, is_empty}
use tricti.Table.Bitmap.Count.{count_true}
use tricti.Table.Evaluate.{selected_rows, evaluate_predicate_columnar, scan_filtered_optimized}
use tricti.Table.Steps.{Reached, start, call, insert}

to_f64_carries : Float.from_u64 (2 ^ 54 - 1) ≡ 0x4350_0000_0000_0000
unfolding Float.from_u64
to_f64_carries = refl

to_f64_ties_to_even : Float.from_u64 (2 ^ 53 + 1) ≡ 0x4340_0000_0000_0000
unfolding Float.from_u64
to_f64_ties_to_even = refl

minus_one_and_a_half : Float.to_i32 0xbff8_0000_0000_0000 ≡ 2 ^ 32 - 1
unfolding Float.to_i32
minus_one_and_a_half = refl

too_large_saturates : Float.to_i32 (Float.from_u64 (2 ^ 40)) ≡ 2 ^ 31 - 1
unfolding Float.to_i32 Float.from_u64
too_large_saturates = refl

-- No column is computed, so the engine is never asked.
instance abbrev no_engine : LazyEvaluation (Unit {0})
no_engine = record {
  build_engine = λ schema. ok tt;
  get_computed_value = λ name row_id storage engine. (engine, err "no computed column");
  mark_engine_column_dirty = λ name engine. engine;
  mark_engine_row_dirty = λ name row_id engine. engine;
  cache_stats = λ engine. [];
}

abbrev column : String → String → List TableAnnotation → TableColumn
column name type_name annotations = record {
  name = name;
  column_type = AstType.identifier type_name nil;
  annotations = annotations;
  default_value = none;
  is_computed = false;
  computed_expression = none;
}

abbrev users : TableDef
users = record {
  name = "users";
  columns =
      column "id" "u64" (record { name = "primary"; args = [] } ∷ [])
      ∷ column "name" "String" []
      ∷ column "admin" "bool" []
      ∷ [];
}

abbrev user : ℕ → String → Bool → TableRow
user id name admin = record {
  values = ("id", u64 id) ∷ ("name", string name) ∷ ("admin", bool admin) ∷ [];
}

abbrev users_0 : TableRuntime (Unit {0})
users_0 = new_with users none

abbrev users_1 : TableRuntime (Unit {0})
users_1 = (insert_row (user 7 "Ada" true) users_0).0

abbrev users_2 : TableRuntime (Unit {0})
users_2 = (insert_row (user 9 "Alan" false) users_1).0

made_users : new users ≡ ok users_0
unfolding new any
made_users = refl

users_2-Reached : Reached users users_2
users_2-Reached =
    call (call (start made_users) (insert (user 7 "Ada" true))) (insert (user 9 "Alan" false))

users-HasStoredKey : HasStoredKey users
unfolding primary_key_column is_primary is_stored
users-HasStoredKey name e =
    subst (λ n. is_stored n users.columns ≡ true) {x = "id"} {y = name} (ground (arith, e)) refl

-- The second insertion of a key is refused, and the table is as it was.
duplicate : insert_row (user 7 "Bob" false) users_2 ≡ (users_2, err (duplicate_primary_key (u64 7)))
unfolding insert_row complete_row column_value key_value contains_key get new_with finish_insert
    store_values and_then set_value_at
duplicate = refl

inserted : (insert_row (user 12 "Bob" false) users_2).1 ≡ ok 2
unfolding insert_row complete_row column_value key_value contains_key get new_with finish_insert
    store_values and_then set_value_at
inserted = refl

get_row-insert_row_example :
    (read : TableRow) × (get_row 2 (insert_row (user 12 "Bob" false) users_2).0 ≡ ok read)
    × ((name : String) (v : ColumnValue)
        → is_stored name users_2.schema.columns ≡ true
        → is_computed_named name users_2.schema.columns ≡ false
        → get name (user 12 "Bob" false).values ≡ some v
        → get name read.values ≡ some v)
get_row-insert_row_example = get_row-insert_row (user 12 "Bob" false) 2 users_2-Reached inserted

length-scan_all_example : length (scan_all users_2) ≡ users_2.row_count
length-scan_all_example = length-scan_all users_2-Reached

users_2_key : users_2.primary_index.column_name ≡ some "id"
unfolding insert_row complete_row column_value key_value contains_key get new_with finish_insert
    store_values and_then set_value_at
users_2_key = refl

primary_index_right_example :
    ((k : ColumnValue) (r : ℕ)
      → find_by_primary_key k users_2 ≡ some r
      → (is_missing r users_2 ≡ false) × (cell "id" r users_2.storage.columns ≡ some k))
    × ((k : ColumnValue) (r : ℕ)
        → is_missing r users_2 ≡ false
        → cell "id" r users_2.storage.columns ≡ some k
        → find_by_primary_key k users_2 ≡ some r)
    × ((k : ColumnValue) (r s : ℕ)
        → is_missing r users_2 ≡ false
        → is_missing s users_2 ≡ false
        → cell "id" r users_2.storage.columns ≡ some k
        → cell "id" s users_2.storage.columns ≡ some k
        → r ≡ s)
primary_index_right_example = primary_index_right users-HasStoredKey users_2-Reached users_2_key

is_admin : TableRow → Bool
unfolding get
is_admin row = elim (get "admin" row.values) [ some (bool b) ↦ b | _ ↦ false ]

iterators_agree_example :
    (iter_rows users_2 ≡ scan_all users_2)
    × (iter_filtered is_admin users_2 ≡ scan_filtered is_admin users_2)
    × (scan_filtered is_admin users_2 ≡ retain (λ e. is_admin e.1) (scan_all users_2))
iterators_agree_example = iterators_agree users_2 is_admin

name_stored : is_stored "name" users_2.schema.columns ≡ true
unfolding insert_row complete_row column_value key_value contains_key get new_with finish_insert
    store_values and_then set_value_at is_stored
name_stored = refl

name_plain : is_computed_named "name" users_2.schema.columns ≡ false
unfolding insert_row complete_row column_value key_value contains_key get new_with finish_insert
    store_values and_then set_value_at is_computed_named
name_plain = refl

name_no_key : is_key users_2.primary_index.column_name "name" ≡ false
unfolding insert_row complete_row column_value key_value contains_key get new_with finish_insert
    store_values and_then set_value_at is_key
name_no_key = refl

name_no_index : get "name" users_2.secondary_indexes ≡ none
unfolding insert_row complete_row column_value key_value contains_key get new_with finish_insert
    store_values and_then set_value_at
name_no_index = refl

equality_agrees_example :
    scan_filtered_optimized
      (binary_op (identifier "name") BinaryOperator.equal (literal (Literal.text "Ada")))
      users_2
    ≡ ok (scan_by_column_value "name" (literal_to_column_value (Literal.text "Ada")) users_2)
equality_agrees_example =
    equality_agrees users_2 "name" (Literal.text "Ada") users_2-Reached name_stored name_plain
      name_no_key name_no_index

abbrev seven : Literal
seven = integer (record { raw = "7"; value = 7; suffix = none })

abbrev indexed : TableRuntime (Unit {0})
indexed = add_secondary_index "name" users_2

abbrev names : HashMap ColumnValue (List ℕ)
names = (string "Ada", 0 ∷ []) ∷ (string "Alan", 1 ∷ []) ∷ []

abbrev names_index : SecondaryIndex
names_index = record {
  column_name = "name";
  ordered_index = names;
  bitmap_index = some (build_bitmap_index_for_column "name" names users_2);
}

names_indexed : get "name" indexed.secondary_indexes ≡ some names_index
unfolding insert_row complete_row column_value key_value contains_key get new_with finish_insert
    store_values and_then set_value_at add_secondary_index
names_indexed = refl

indexed_no_key : is_key indexed.primary_index.column_name "name" ≡ false
unfolding insert_row complete_row column_value key_value contains_key get new_with finish_insert
    store_values and_then set_value_at is_key add_secondary_index
indexed_no_key = refl

index_stale_example :
    ((row : TableRow)
      → evaluate_equality_predicate (insert_row row indexed).0 (identifier "name") (literal seven)
        ≡ evaluate_equality_predicate indexed (identifier "name") (literal seven))
    × ((id : ℕ) (updates : HashMap String ColumnValue)
        → evaluate_equality_predicate
            (update_row id updates indexed).0
            (identifier "name")
            (literal seven)
          ≡ evaluate_equality_predicate indexed (identifier "name") (literal seven))
    × ((id : ℕ)
        → evaluate_equality_predicate (delete_row id indexed).0 (identifier "name") (literal seven)
          ≡ evaluate_equality_predicate indexed (identifier "name") (literal seven))
index_stale_example = index_stale indexed "name" names_index seven indexed_no_key names_indexed

abbrev plan : Plan
plan = put 1 false (meet (full 3) (join (put 2 true (empty 3)) (full 2)))

build_refines_example :
    (length (build plan).bits ≡ rows plan)
    × ((j : ℕ) → contains (true_row_ids (build plan)) j ≡ selects plan j)
    × ((build plan).cardinality ≡ count_true (build plan).bits)
    × (is_empty (build plan) ≡ true → (j : ℕ) → selects plan j ≡ false)
build_refines_example = build_refines plan

abbrev ages : ColumnData
ages = u64_column (some 36 ∷ none ∷ some 41 ∷ [])

-- The optimized scan takes every row where a bitmap meets an index, whatever the predicate says.
mixed_takes_all :
    scan_filtered_optimized
      (binary_op
        (binary_op (identifier "id") BinaryOperator.equal (literal seven))
        BinaryOperator.and
        (binary_op (identifier "name") BinaryOperator.equal (literal (Literal.text "Ada"))))
      users_2
    ≡ ok (scan_all users_2)
unfolding insert_row complete_row column_value key_value contains_key get new_with finish_insert
    store_values and_then set_value_at scan_filtered_optimized evaluate_predicate_columnar
    evaluate_equality_predicate equality_lookup create_equality_bitmap column_bitmap
    intersect_predicate_results selected_rows scan_all scan_filtered get_row unkeyed_lookup
    is_missing normalize_value_for_column read_values normalize_for_type
mixed_takes_all = refl
