-- ===== src/Table/Error.antt =====
-- src/table_runtime.rs: the errors of a table.
use tricti.Base.{ℕ, String}
use tricti.Table.Value.{ColumnValue}

pub data TableError : Type 0 where
  duplicate_primary_key : ColumnValue → TableError
  column_not_found : String → TableError
  type_mismatch : (column expected found : String) → TableError
  primary_key_required : TableError
  row_not_found : (row_id : ℕ) → TableError
