-- ===== src/Table/State.antt =====
-- src/table_runtime.rs: the state of a table, and what it asks of the engine that computes columns.
use tricti.Base.{ℕ, List, Option, String}
use tricti.Base.Result.{Result}
use tricti.Base.HashMap.{HashMap}
use tricti.Ast.{TableDef}
use tricti.Table.Bitmap.{RowBitmap}
use tricti.Table.Column.{ColumnData}
use tricti.Table.Value.{ColumnValue}

pub record ColumnarStorage : Type 0 where
  pub columns : HashMap String ColumnData

-- A `RowId` is its number.
pub record PrimaryKeyIndex : Type 0 where
  pub column_name : Option String
  pub index : HashMap ColumnValue ℕ

pub record BitmapIndex : Type 0 where
  pub column_name : String
  pub value_bitmaps : HashMap ColumnValue RowBitmap
  pub null_bitmap : RowBitmap

-- The `BTreeMap` is the list of its entries in the order of the keys.
pub record SecondaryIndex : Type 0 where
  pub column_name : String
  pub ordered_index : HashMap ColumnValue (List ℕ)
  pub bitmap_index : Option BitmapIndex

pub record TableRow : Type 0 where
  pub values : HashMap String ColumnValue

pub record TableRuntime (Engine : Type 0) : Type 0 where
  pub schema : TableDef
  pub storage : ColumnarStorage
  pub primary_index : PrimaryKeyIndex
  pub secondary_indexes : HashMap String SecondaryIndex
  pub row_count : ℕ
  pub deleted_rows : List ℕ
  pub next_row_id : ℕ
  pub computed_engine : Option Engine

-- The methods of `LazyEvaluationEngine` that a table calls. An error is its text in `{:?}` form.
pub record LazyEvaluation (Engine : Type 0) : Type 0 where
  pub build_engine : TableDef → Result String Engine
  pub get_computed_value :
      (column_name : String) (row_id : ℕ)
      → ColumnarStorage
      → Engine
      → Engine × Result String ColumnValue
  pub mark_engine_column_dirty : String → Engine → Engine
  pub mark_engine_row_dirty : String → ℕ → Engine → Engine
  pub cache_stats : Engine → HashMap String ℕ
