-- ===== src/ErrorPropagation/Matching.antt =====
-- src/error_propagation.rs: the handlers that match an error, in the order of their priorities.
use Prim.Native.String.{find, len}
use tricti.Base.{
  String, Bool, false, List, [], ◌∷◌, ◌++◌, leb, ◌==◌, text_key, if◌then◌else◌, Option, none, some,
  retain,
}
use tricti.Base.HashMap.{HashMap, get}
use tricti.Base.Sort.{sort_by}
use tricti.ErrorPropagation.State.{
  AsyncExecutionError, resource_conflict, scheduling_error, table_error, system_error, timeout,
  cancelled, resource_lifecycle_error, ErrorPattern, exact_type, type_pattern, source_system,
  resource_name, custom, ErrorHandler, ErrorPropagationManager,
}

unfoldable pub error_type_name : AsyncExecutionError → String
error_type_name (resource_conflict _ _ _) = "ResourceConflict"
error_type_name (scheduling_error _) = "SchedulingError"
error_type_name (table_error _) = "TableError"
error_type_name (system_error _ _) = "SystemError"
error_type_name (timeout _ _) = "Timeout"
error_type_name (cancelled _) = "Cancelled"
error_type_name (resource_lifecycle_error _ _ _) = "ResourceLifecycleError"

unfoldable pub matches_error_pattern : ErrorPattern → AsyncExecutionError → Bool
unfolding error_type_name
matches_error_pattern (exact_type type_name) error = error_type_name error == type_name
matches_error_pattern (type_pattern pattern) error =
    leb (find (error_type_name error) pattern) (len (error_type_name error))
matches_error_pattern (source_system system) (system_error err_system _) = err_system == system
matches_error_pattern (source_system system) _ = false
matches_error_pattern (resource_name resource) (resource_conflict _ err_resource _) =
    err_resource == resource
matches_error_pattern (resource_name resource) _ = false
matches_error_pattern (custom _) error = false

unfoldable pub matching_of : AsyncExecutionError → List ErrorHandler → List ErrorHandler
unfolding retain matches_error_pattern
matching_of error handler_list =
    retain (λ handler. matches_error_pattern handler.error_pattern error) handler_list

-- The handlers under the error's own type come first.
unfoldable pub own_handlers : AsyncExecutionError → Option (List ErrorHandler) → List ErrorHandler
own_handlers error none = []
own_handlers error (some handler_list) = matching_of error handler_list

-- `for (pattern_key, handler_list) in handlers.iter() { if pattern_key == &error_type { continue; } … }`
unfoldable pub other_handlers :
    AsyncExecutionError → HashMap String (List ErrorHandler) → List ErrorHandler
unfolding error_type_name
other_handlers error [] = []
other_handlers error ((pattern_key, handler_list) ∷ rest) =
    let later = other_handlers error rest in
    if pattern_key == error_type_name error then later else matching_of error handler_list ++ later

-- `Vec::dedup_by` with equal ids: an element goes where the last one that is kept has its id.
unfoldable pub dedup_after : (kept : String) → List ErrorHandler → List ErrorHandler
dedup_after kept [] = []
dedup_after kept (handler ∷ rest) =
    let same = dedup_after kept rest in
    let other = dedup_after handler.handler_id rest in
    if handler.handler_id == kept then same else handler ∷ other

unfoldable pub dedup : List ErrorHandler → List ErrorHandler
unfolding dedup_after
dedup [] = []
dedup (handler ∷ rest) = handler ∷ dedup_after handler.handler_id rest

-- `b.priority.cmp(&a.priority)` is not `Greater`.
unfoldable pub comes_first : ErrorHandler → ErrorHandler → Bool
comes_first a b = leb b.priority a.priority

unfoldable pub find_matching_handlers :
    AsyncExecutionError → ErrorPropagationManager → List ErrorHandler
unfolding own_handlers other_handlers get error_type_name sort_by comes_first dedup
find_matching_handlers error s = dedup (
    sort_by comes_first (
      own_handlers error (get (error_type_name error) s.error_handlers)
      ++ other_handlers error s.error_handlers))
