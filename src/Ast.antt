-- ===== src/Ast.antt =====
-- src/ast.rs: the parts of the syntax tree that the scheduler and the resource manager read: types,
-- resource accesses, system parameters and definitions; and what the tables read: literals, operators,
-- expressions and table definitions.
use Prim.Native.Char.{Char}
use tricti.Base.{ℕ, Bool, List, Option, String}

-- A `HashMap<String, Type>` is a list of its entries in iteration order.
mutual
  pub data AstType : Type 0 where
    none_type : AstType
    identifier : (name : String) (type_args : Types) → AstType
    pointer : (is_mutable : Bool) (pointee : AstType) → AstType
    raw_pointer : (pointee : AstType) (is_raw : Bool) → AstType
    optional : (inner : AstType) → AstType
    result : (inner : AstType) → AstType
    tuple : Types → AstType
    matrix : (element_type : AstType) (dimensions : List ℕ) → AstType
    function : (parameters : Types) (return_type : AstType) → AstType
    struct : (fields : Fields) → AstType
    enum : (variants : Variants) (order : List String) → AstType
    trait : (associated_types : List String) (methods : Fields) → AstType
    reference : (is_mutable : Bool) (inner : AstType) → AstType

  pub data Types : Type 0 where
    nil : Types
    cons : AstType → Types → Types

  pub data Fields : Type 0 where
    no_fields : Fields
    field : String → AstType → Fields → Fields

  pub data Variants : Type 0 where
    no_variants : Variants
    bare : String → Variants → Variants
    payload : String → AstType → Variants → Variants

pub data ResourceAccess : Type 0 where
  immutable mutable owned : ResourceAccess

-- A query's specification and a regular parameter's default value are read by no code modelled here.
pub data SystemParameter : Type 0 where
  query : (name : String) → SystemParameter
  resource :
      (param_type name : String) (resource_type : AstType) (access : ResourceAccess)
      → SystemParameter
  regular : (param_type name : String) (value_type : AstType) → SystemParameter

-- The body is read by no code modelled here.
pub record SystemDef : Type 0 where
  pub name : String
  pub parameters : List SystemParameter
  pub return_type : Option AstType
  pub is_async : Bool

pub data IntSuffix : Type 0 where
  i8 i16 i32 i64 u8 u16 u32 u64 : IntSuffix

-- The value is a `u128`.
pub record IntegerLiteral : Type 0 where
  pub raw : String
  pub value : ℕ
  pub suffix : Option IntSuffix

-- A float is its 64 bits.
pub data Literal : Type 0 where
  integer : IntegerLiteral → Literal
  float : (bits : ℕ) → Literal
  text : String → Literal
  boolean : Bool → Literal
  char : Char → Literal

pub data BinaryOperator : Type 0 where
  add sub mul div modulo element_mul element_div element_mod shift_left shift_right : BinaryOperator
  and or xor equal not_equal less greater less_equal greater_equal : BinaryOperator

-- The table code reads three forms of an expression, and treats all others alike: `compound`.
pub data Expression : Type 0 where
  literal : Literal → Expression
  identifier : String → Expression
  binary_op : (left : Expression) (operator : BinaryOperator) (right : Expression) → Expression
  compound : Expression

pub record TableAnnotation : Type 0 where
  pub name : String
  pub args : List Expression

pub record TableColumn : Type 0 where
  pub name : String
  pub column_type : AstType
  pub annotations : List TableAnnotation
  pub default_value : Option Expression
  pub is_computed : Bool
  pub computed_expression : Option Expression

pub record TableDef : Type 0 where
  pub name : String
  pub columns : List TableColumn
