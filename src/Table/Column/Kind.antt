-- ===== src/Table/Column/Kind.antt =====
-- src/table_runtime.rs: a column holds values of one type.
use tricti.Base.{String}
use tricti.Base.Result.{Result}
use tricti.Table.Column.{ColumnData, u64_column, i32_column, string_column, bool_column, f64_column}

-- The name of the type of a column's values.
unfoldable pub column_type : ColumnData → String
column_type (u64_column vec) = "u64"
column_type (i32_column vec) = "i32"
column_type (string_column vec) = "String"
column_type (bool_column vec) = "bool"
column_type (f64_column vec) = "f64"
