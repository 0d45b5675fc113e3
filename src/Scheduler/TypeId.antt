-- ===== src/Scheduler/TypeId.antt =====
-- src/scheduler.rs: `type_to_resource_id`, the text by which the scheduler compares types.
use Prim.Native.String.append
use tricti.Base.{
  ℕ, zero, suc, ◌/◌, ◌%◌, String, ◌<>◌, ◌≡◌, refl, Bool, true, false, List, [], ◌∷◌, ltb,
  if◌then◌else◌, number_key,
}
use tricti.Ast.{
  AstType, none_type, identifier, pointer, raw_pointer, optional, result, tuple, matrix, function,
  struct, enum, trait, reference, Types, nil, cons, Fields, no_fields, field, Variants, no_variants,
  bare, payload,
}

-- `[String]::join`.
unfoldable pub join : String → List String → String
join sep [] = ""
join sep (s ∷ []) = s
join sep (s ∷ t ∷ ss) = s <> sep <> join sep (t ∷ ss)

digit : ℕ → String
digit zero = "0"
digit (suc zero) = "1"
digit (suc (suc zero)) = "2"
digit (suc (suc (suc zero))) = "3"
digit (suc (suc (suc (suc zero)))) = "4"
digit (suc (suc (suc (suc (suc zero))))) = "5"
digit (suc (suc (suc (suc (suc (suc zero)))))) = "6"
digit (suc (suc (suc (suc (suc (suc (suc zero))))))) = "7"
digit (suc (suc (suc (suc (suc (suc (suc (suc zero)))))))) = "8"
digit _ = "9"

-- `usize::to_string`, with one unit of fuel for each digit: a number has fewer digits than its value
-- plus one.
to_string_fuel : ℕ → ℕ → String
unfolding digit
to_string_fuel zero n = ""
to_string_fuel (suc fuel) n =
    let front = to_string_fuel fuel (n / 10) in
    if ltb n 10 then digit n else front <> digit (n % 10)

unfoldable pub to_string : ℕ → String
unfolding to_string_fuel
to_string n = to_string_fuel (suc n) n

to_strings : List ℕ → List String
unfolding to_string
to_strings [] = []
to_strings (n ∷ ns) = to_string n ∷ to_strings ns

is_nil : Types → Bool
is_nil nil = true
is_nil (cons _ _) = false

mut_prefix : Bool → String
mut_prefix is_mutable = if is_mutable then "mut " else ""

unfoldable mutual
  unfolding join to_strings is_nil mut_prefix

  pub type_to_resource_id : AstType → String
  type_to_resource_id (identifier name type_args) =
      if is_nil type_args then name else name <> "[" <> join ", " (type_ids type_args) <> "]"
  type_to_resource_id (pointer is_mutable pointee) =
      mut_prefix is_mutable <> "*" <> type_to_resource_id pointee
  type_to_resource_id (raw_pointer pointee is_raw) =
      if is_raw then "raw*" <> type_to_resource_id pointee else "*" <> type_to_resource_id pointee
  type_to_resource_id (optional inner) = "Option[" <> type_to_resource_id inner <> "]"
  type_to_resource_id (result inner) = "Result[" <> type_to_resource_id inner <> "]"
  type_to_resource_id (tuple types) = "(" <> join ", " (type_ids types) <> ")"
  type_to_resource_id (matrix element_type dimensions) =
      "Matrix["
      <> type_to_resource_id element_type
      <> "; "
      <> join ", " (to_strings dimensions)
      <> "]"
  type_to_resource_id (function parameters return_type) =
      "fn(" <> join ", " (type_ids parameters) <> ") -> " <> type_to_resource_id return_type
  type_to_resource_id (struct fields) = "struct {" <> join ", " (field_ids fields) <> "}"
  type_to_resource_id (enum variants _) = "enum {" <> join ", " (variant_ids variants) <> "}"
  type_to_resource_id (trait associated_types methods) =
      "trait {types: ["
      <> join ", " associated_types
      <> "]; methods: ["
      <> join ", " (field_ids methods)
      <> "]}"
  type_to_resource_id (reference is_mutable inner) =
      "&" <> mut_prefix is_mutable <> type_to_resource_id inner
  type_to_resource_id none_type = "()"

  pub type_ids : Types → List String
  type_ids nil = []
  type_ids (cons t ts) = type_to_resource_id t ∷ type_ids ts

  pub field_ids : Fields → List String
  field_ids no_fields = []
  field_ids (field name t fs) = (name <> ": " <> type_to_resource_id t) ∷ field_ids fs

  pub variant_ids : Variants → List String
  variant_ids no_variants = []
  variant_ids (bare name vs) = name ∷ variant_ids vs
  variant_ids (payload name t vs) = (name <> "(" <> type_to_resource_id t <> ")") ∷ variant_ids vs

-- The identifier does not tell apart an immutable pointer and a raw pointer that is not marked raw,
-- nor the empty tuple and the missing type.
pub type_to_resource_id_collisions :
    (t : AstType)
    → (type_to_resource_id (pointer false t) ≡ type_to_resource_id (raw_pointer t false))
      × (type_to_resource_id (tuple nil) ≡ type_to_resource_id none_type)
unfolding type_to_resource_id
type_to_resource_id_collisions t = (append.nil _, refl)
