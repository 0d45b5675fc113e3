-- ===== src/Table/Schema.antt =====
-- src/table_runtime.rs: what the declared columns say of a value.
use Prim.Native.Char.{Char}
use tricti.Base.{
  ℕ, ◌+◌, ◌-◌, ◌%◌, ◌^◌, Bool, false, ◌||◌, Option, none, some, List, [], ◌∷◌, String, ◌==◌,
  text_key, if◌then◌else◌, ltb,
}
use tricti.Base.Result.{Result, ok, err}
use tricti.Ast.{
  AstType, TableColumn, TableAnnotation, Expression, literal, Literal, integer, float, text,
  boolean, char,
}
use tricti.Table.Float
use tricti.Table.Value.{ColumnValue, u64, i32, string, bool, f64}
use tricti.Table.Error.{TableError, type_mismatch, column_not_found}

-- `columns.iter().find(|col| col.name == column_name)`
unfoldable pub find_column : String → List TableColumn → Option TableColumn
find_column column_name [] = none
find_column column_name (column ∷ columns) =
    if column.name == column_name then some column else find_column column_name columns

-- `match column_type { Type::Identifier { name, .. } => name, _ => … }`
unfoldable pub type_name_or : String → AstType → String
type_name_or other (AstType.identifier name type_args) = name
type_name_or other _ = other

unfoldable pub actual_type : ColumnValue → String
actual_type (u64 v) = "u64"
actual_type (i32 v) = "i32"
actual_type (string v) = "String"
actual_type (bool v) = "bool"
actual_type (f64 v) = "f64"

unfoldable pub validate_column_value :
    List TableColumn → String → ColumnValue → Result TableError (Unit {0})
unfolding find_column type_name_or actual_type
validate_column_value columns column_name value = elim (find_column column_name columns) [
  | none ↦ err (column_not_found column_name)
  | some column ↦
      let expected_type = type_name_or "unknown" column.column_type in
      if expected_type == actual_type value
      then ok tt
      else err (type_mismatch column_name expected_type (actual_type value))
]

-- `c.to_string()`
abbrev pub char_text : Char → String
char_text c = String.◌∷◌ c String.[]

-- `int_lit.value as u64` keeps the low 64 bits.
unfoldable pub literal_to_column_value : Literal → ColumnValue
literal_to_column_value (boolean b) = bool b
literal_to_column_value (integer lit) = u64 (lit.value % 2 ^ 64)
literal_to_column_value (float bits) = f64 bits
literal_to_column_value (text s) = string s
literal_to_column_value (char c) = string (char_text c)

unfoldable pub evaluate_default_expression : Expression → Result TableError ColumnValue
unfolding literal_to_column_value
evaluate_default_expression (literal lit) = ok (literal_to_column_value lit)
evaluate_default_expression _ = err (type_mismatch "default" "literal" "complex expression")

-- `v as u64` and `v as i32` on the bits of the other width.
unfoldable pub i32_as_u64 : ℕ → ℕ
i32_as_u64 bits = if ltb bits (2 ^ 31) then bits else bits + (2 ^ 64 - 2 ^ 32)

unfoldable pub to_f64 : ColumnValue → ColumnValue
to_f64 (u64 v) = f64 (Float.from_u64 v)
to_f64 (i32 v) = f64 (Float.from_i32 v)
to_f64 value = value

unfoldable pub to_u64 : ColumnValue → ColumnValue
to_u64 (i32 v) = u64 (i32_as_u64 v)
to_u64 value = value

unfoldable pub to_i32 : ColumnValue → ColumnValue
to_i32 (u64 v) = i32 (v % 2 ^ 32)
to_i32 (f64 bits) = i32 (Float.to_i32 bits)
to_i32 value = value

unfoldable pub normalize_for_type : String → ColumnValue → ColumnValue
unfolding to_f64 to_u64 to_i32
normalize_for_type target value =
    if target == "f64"
    then to_f64 value
    else if target == "u64"
    then to_u64 value
    else if target == "i32"
    then to_i32 value
    else value

unfoldable pub normalize_for_column_type : AstType → ColumnValue → ColumnValue
normalize_for_column_type (AstType.identifier name type_args) value = normalize_for_type name value
normalize_for_column_type _ value = value

unfoldable pub normalize_value_for_column : List TableColumn → String → ColumnValue → ColumnValue
unfolding find_column normalize_for_column_type
normalize_value_for_column columns column_name value = elim (find_column column_name columns) [
  | none ↦ value
  | some column ↦ normalize_for_column_type column.column_type value
]

-- `map_or(false, |col| col.is_computed)`
unfoldable pub is_computed_column : List TableColumn → String → Bool
unfolding find_column
is_computed_column columns column_name = elim (find_column column_name columns) [
  | none ↦ false
  | some column ↦ column.is_computed
]

unfoldable pub is_primary : List TableAnnotation → Bool
is_primary [] = false
is_primary (annotation ∷ annotations) = annotation.name == "primary" || is_primary annotations

unfoldable pub primary_key_column : List TableColumn → Option String
unfolding is_primary
primary_key_column [] = none
primary_key_column (column ∷ columns) =
    if is_primary column.annotations then some column.name else primary_key_column columns

-- Whether a column is the primary key.
unfoldable pub is_key : Option String → String → Bool
is_key none column_name = false
is_key (some pk_column) column_name = pk_column == column_name
