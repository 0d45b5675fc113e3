-- ===== src/Table/Statistics.antt =====
-- src/table_runtime.rs and src/query.rs: the statistics that a table gives to the query optimizer.
use tricti.Base.{
  ℕ, ◌+◌, Bool, true, Option, none, some, List, [], ◌∷◌, String, length, text_key, number_key,
  if◌then◌else◌,
}
use tricti.Base.HashMap
use tricti.Base.HashMap.{HashMap, get, contains_key}
use tricti.Base.HashSet
use tricti.Base.HashSet.{contains}
use tricti.Ast.{TableColumn}
use tricti.Table.Value.{
  ColumnValue, value_key, values_equal, compare_column_values, unwrap_or_false,
}
use tricti.Table.Column.{ColumnData, get_value}
use tricti.Table.Schema.{is_key}
use tricti.Table.State.{TableRuntime}
use tricti.Table.Scan.{range}

pub record ColumnStatistics : Type 0 where
  pub column_name : String
  pub distinct_count : ℕ
  pub null_count : ℕ
  pub min_value : Option ColumnValue
  pub max_value : Option ColumnValue
  pub is_indexed : Bool

pub record TableStatistics : Type 0 where
  pub table_name : String
  pub row_count : ℕ
  pub column_stats : HashMap String ColumnStatistics
  pub indexed_columns : List String
  pub primary_key_column : Option String

-- What the loop over the rows of a column gathers.
pub record Analysis : Type 0 where
  pub distinct_values : List ColumnValue
  pub nulls : ℕ
  pub least : Option ColumnValue
  pub greatest : Option ColumnValue

-- `min_value.is_none() || compare(&value, min_value).unwrap_or(false)`
unfoldable pub takes_min : ColumnValue → Option ColumnValue → Bool
unfolding unwrap_or_false compare_column_values
takes_min value none = true
takes_min value (some least) = unwrap_or_false (compare_column_values value least)

-- `max_value.is_none() || compare(max_value, &value).unwrap_or(false)`
unfoldable pub takes_max : ColumnValue → Option ColumnValue → Bool
unfolding unwrap_or_false compare_column_values
takes_max value none = true
takes_max value (some greatest) = unwrap_or_false (compare_column_values greatest value)

unfoldable pub analyze_value : Option ColumnValue → Analysis → Analysis
unfolding takes_min takes_max HashSet.insert
analyze_value none seen = record seen { nulls = seen.nulls + 1 }
analyze_value (some value) seen = record {
  distinct_values = HashSet.insert value seen.distinct_values;
  nulls = seen.nulls;
  least = if takes_min value seen.least then some value else seen.least;
  greatest = if takes_max value seen.greatest then some value else seen.greatest;
}

unfoldable pub analyze_column : List ℕ → (deleted_rows : List ℕ) → ColumnData → Analysis → Analysis
unfolding contains analyze_value get_value
analyze_column [] deleted_rows column seen = seen
analyze_column (i ∷ row_ids) deleted_rows column seen =
    analyze_column row_ids deleted_rows column
      (if contains deleted_rows i then seen else analyze_value (get_value i column) seen)

abbrev pub nothing_seen : Analysis
nothing_seen = record { distinct_values = []; nulls = 0; least = none; greatest = none }

unfoldable pub count_equal : ColumnValue → List ℕ → (deleted_rows : List ℕ) → ColumnData → ℕ
unfolding contains get_value values_equal
count_equal value [] deleted_rows column = 0
count_equal value (i ∷ row_ids) deleted_rows column =
    let later = count_equal value row_ids deleted_rows column in
    if contains deleted_rows i then later else elim (get_value i column) [
      | none ↦ later
      | some col_value ↦ if values_equal col_value value then later + 1 else later
    ]

module _ {Engine : Type 0} where
  unfoldable pub column_statistics : TableRuntime Engine → String → ColumnData → ColumnStatistics
  unfolding analyze_column range is_key
  column_statistics table name column =
      let seen =
        analyze_column (range 0 table.next_row_id) table.deleted_rows column nothing_seen in
      record {
        column_name = name;
        distinct_count = length seen.distinct_values;
        null_count = seen.nulls;
        min_value = seen.least;
        max_value = seen.greatest;
        is_indexed = is_key table.primary_index.column_name name;
      }

  unfoldable pub statistics_of :
      TableRuntime Engine
      → List TableColumn
      → HashMap String ColumnStatistics
      → HashMap String ColumnStatistics
  unfolding get HashMap.insert column_statistics
  statistics_of table [] column_stats = column_stats
  statistics_of table (column ∷ columns) column_stats =
      statistics_of table columns (elim (get column.name table.storage.columns) [
        | none ↦ column_stats
        | some column_data ↦
            HashMap.insert column.name (column_statistics table column.name column_data)
              column_stats
      ])

  unfoldable pub generate_statistics : TableRuntime Engine → TableStatistics
  unfolding statistics_of
  generate_statistics table = record {
    table_name = table.schema.name;
    row_count = table.row_count;
    column_stats = statistics_of table table.schema.columns [];
    indexed_columns = elim table.primary_index.column_name [
      | none ↦ []
      | some pk_col ↦ pk_col ∷ []
    ];
    primary_key_column = table.primary_index.column_name;
  }

  unfoldable pub estimate_column_cardinality : String → ColumnValue → TableRuntime Engine → ℕ
  unfolding is_key contains_key get count_equal range
  estimate_column_cardinality column_name value table =
      if is_key table.primary_index.column_name column_name
      then (if contains_key value table.primary_index.index then 1 else 0)
      else elim (get column_name table.storage.columns) [
        | none ↦ 0
        | some column ↦ count_equal value (range 0 table.next_row_id) table.deleted_rows column
      ]
