-- ===== src/Scheduler/Validate.antt =====
-- src/scheduler.rs: `validate_system_resources`.
pub mod Consistent
use tricti.Base.{
  String, ◌<>◌, Bool, true, false, not, Option, none, some, List, [], ◌∷◌, if◌then◌else◌, ◌==◌, ok,
  err, ◌>>=◌, text_key,
}
use tricti.Base.HashMap.{HashMap}
use tricti.Base.HashMap
use tricti.Ast.{
  AstType, ResourceAccess, immutable, mutable, owned, SystemParameter, resource, SystemDef,
}
use tricti.Scheduler.Error.{invalid_resource_access, Outcome}
use tricti.Scheduler.TypeId.{type_to_resource_id}

-- The derived `PartialEq` and `Debug` of `ResourceAccess`.
unfoldable pub access_eq : ResourceAccess → ResourceAccess → Bool
access_eq immutable immutable = true
access_eq mutable mutable = true
access_eq owned owned = true
access_eq _ _ = false

unfoldable pub access_name : ResourceAccess → String
access_name immutable = "Immutable"
access_name mutable = "Mutable"
access_name owned = "Owned"

types_differ : String → String → String → String
types_differ name existing_type type_signature =
    "Resource '" <> name <> "' declared with conflicting types: '" <> existing_type <> "' vs '"
    <> type_signature <> "'"

accesses_differ : String → ResourceAccess → ResourceAccess → String
accesses_differ name existing_access access =
    "System has conflicting access patterns to resource '"
    <> name
    <> "': previously declared as "
    <> access_name existing_access
    <> ", now "
    <> access_name access

-- One resource parameter against what is recorded for its name.
check_existing :
    String
    → String
    → Option (ResourceAccess × String)
    → String
    → ResourceAccess
    → HashMap String (ResourceAccess × String)
    → Outcome (HashMap String (ResourceAccess × String))
unfolding types_differ accesses_differ access_eq access_name HashMap.insert
check_existing system name none type_signature access accesses =
    ok (HashMap.insert name (access, type_signature) accesses)
check_existing system name (some (existing_access, existing_type)) type_signature access accesses =
    if not (existing_type == type_signature)
    then err (invalid_resource_access system name (types_differ name existing_type type_signature))
    else if not (access_eq existing_access access)
    then err (invalid_resource_access system name (accesses_differ name existing_access access))
    else ok accesses

check_parameters :
    String → HashMap String (ResourceAccess × String) → List SystemParameter → Outcome (Unit {0})
unfolding check_existing HashMap.get type_to_resource_id
check_parameters system accesses [] = ok tt
check_parameters system accesses (resource _ name resource_type access ∷ params) = do
  accesses' ←
      check_existing system name (HashMap.get name accesses) (type_to_resource_id resource_type)
        access accesses
  check_parameters system accesses' params
check_parameters system accesses (_ ∷ params) = check_parameters system accesses params

unfoldable pub validate_system_resources : SystemDef → Outcome (Unit {0})
unfolding check_parameters
validate_system_resources system = check_parameters system.name [] system.parameters
