-- ===== src/Table/Value.antt =====
-- src/table_runtime.rs: the values of a column, and how they are compared.
use Prim.Native.String.{compare as compare_text}
use text.Mathlib.Text.{is_le, is_lt}
use tricti.Base.{
  ℕ, ◌+◌, ◌%◌, ◌^◌, ◌≡◌, ◌↔◌, ap, Bool, true, false, not, ◌&&◌, ◌||◌, Option, none, some, String,
  if◌then◌else◌, nat_beq, ltb, text_key, arith, eq_iff, PartialEq, ◌==◌, ==_iff,
}
use tricti.Table.Float

-- An i32 is its 32 bits, an f64 its 64 bits.
pub data ColumnValue : Type 0 where
  u64 : ℕ → ColumnValue
  i32 : ℕ → ColumnValue
  string : String → ColumnValue
  bool : Bool → ColumnValue
  f64 : ℕ → ColumnValue

abbrev pub bool_beq : Bool → Bool → Bool
bool_beq true b = b
bool_beq false b = not b

-- The derived `PartialEq`.
abbrev pub value_beq : ColumnValue → ColumnValue → Bool
value_beq (u64 a) (u64 b) = nat_beq a b
value_beq (i32 a) (i32 b) = nat_beq a b
value_beq (string a) (string b) = a == b
value_beq (bool a) (bool b) = bool_beq a b
value_beq (f64 a) (f64 b) = nat_beq a b
value_beq _ _ = false

pub value_beq_iff : (a b : ColumnValue) → (value_beq a b ≡ true) ↔ (a ≡ b)
value_beq_iff (string a) (string b) =
    (λ h. ap string ((==_iff a b).0 h), λ e. ground (arith, eq_iff a b, e))
value_beq_iff a b = ground arith

instance abbrev pub value_key : PartialEq ColumnValue
value_key = record { eq = value_beq; eq_reflects = value_beq_iff }

-- The place of the constructor in the derived `Ord`.
abbrev pub variant : ColumnValue → ℕ
variant (u64 a) = 0
variant (i32 a) = 1
variant (string a) = 2
variant (bool a) = 3
variant (f64 a) = 4

-- `a < b` in the derived `Ord`; a signed number is shifted so that its bits are in order.
unfoldable pub value_lt : ColumnValue → ColumnValue → Bool
value_lt (u64 a) (u64 b) = ltb a b
value_lt (i32 a) (i32 b) = ltb ((a + 2 ^ 31) % 2 ^ 32) ((b + 2 ^ 31) % 2 ^ 32)
value_lt (string a) (string b) = is_lt (compare_text a b)
value_lt (bool a) (bool b) = not a && b
value_lt (f64 a) (f64 b) = ltb a b
value_lt a b = ltb (variant a) (variant b)

unfoldable pub value_as_f64 : ColumnValue → Option ℕ
value_as_f64 (u64 v) = some (Float.from_u64 v)
value_as_f64 (i32 v) = some (Float.from_i32 v)
value_as_f64 (f64 bits) = some bits
value_as_f64 (string v) = none
value_as_f64 (bool v) = none

-- `passes.unwrap_or(false)`, `map_or(false, …)`
unfoldable pub unwrap_or_false : Option Bool → Bool
unwrap_or_false none = false
unwrap_or_false (some b) = b

unfoldable pub floats_equal : Option ℕ → Option ℕ → Bool
unfolding unwrap_or_false Float.partial_eq
floats_equal (some lhs) (some rhs) = unwrap_or_false (Float.partial_eq lhs rhs)
floats_equal _ _ = false

unfoldable pub values_equal : ColumnValue → ColumnValue → Bool
unfolding floats_equal value_as_f64
values_equal left right =
    if left == right then true else floats_equal (value_as_f64 left) (value_as_f64 right)

-- What is left to compare where one of the two is no number.
unfoldable pub compare_texts : ColumnValue → ColumnValue → Option Bool
compare_texts (string a) (string b) = some (is_le (compare_text b a))
compare_texts (bool a) (bool b) = some (a || not b)
compare_texts _ _ = none

unfoldable pub compare_floats : Option ℕ → Option ℕ → Option Bool → Option Bool
unfolding Float.partial_ge
compare_floats (some lhs) (some rhs) texts = Float.partial_ge lhs rhs
compare_floats _ _ texts = texts

unfoldable pub compare_column_values : ColumnValue → ColumnValue → Option Bool
unfolding compare_floats value_as_f64 compare_texts
compare_column_values left right =
    compare_floats (value_as_f64 left) (value_as_f64 right) (compare_texts left right)
