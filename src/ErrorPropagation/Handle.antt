-- ===== src/ErrorPropagation/Handle.antt =====
-- src/error_propagation.rs: an error of a task, recorded, put on the task's chain and given to the
-- handlers.

use tricti.Base.{
  ℕ, ◌+◌, ◌<>◌, Option, none, some, List, [], ◌∷◌, ◌++◌, leb, ltb, length, if◌then◌else◌, false,
  number_key,
}
use tricti.Base.HashMap.{HashMap, get, insert}
use tricti.Scheduler.TypeId.{to_string}
use tricti.Lifecycle.Manager.{task_text}
use tricti.ErrorPropagation.State.{
  AsyncExecutionError, resource_conflict, system_error, ErrorHandler, ErrorChain, ChainedError,
  ErrorHandlingConfig, ErrorHandlingResult, handled, abort, ErrorEvent, ErrorPropagationManager,
}
use tricti.ErrorPropagation.Matching.{find_matching_handlers}

-- `entry(task).or_insert_with(…)`: the chain of a task, which is new where it has none.
unfoldable pub chain_or_new : (now task_id : ℕ) → Option ErrorChain → ErrorChain
chain_or_new now task_id none = record {
  task_id = task_id;
  errors = [];
  recovery_attempts = 0;
  last_error_time = now;
  propagation_path = [];
}
chain_or_new now task_id (some chain) = chain

unfoldable pub chained : (now : ℕ) → AsyncExecutionError → ChainedError
chained now error = record {
  error = error;
  occurred_at = now;
  recovery_attempted = false;
  recovery_result = none;
  propagated_to = [];
}

-- `pop_front` where the history is full.
unfoldable pub make_room : (error_history_size : ℕ) → List ErrorEvent → List ErrorEvent
make_room error_history_size [] = []
make_room error_history_size (event ∷ history) =
    if leb error_history_size (length (event ∷ history)) then history else event ∷ history

unfoldable pub record_error_event :
    (now elapsed task_id : ℕ)
    → AsyncExecutionError
    → ErrorPropagationManager
    → ErrorPropagationManager
unfolding make_room task_text to_string
record_error_event now elapsed task_id error s = record s {
  error_history =
      make_room s.config.error_history_size s.error_history
      ++ (record {
        event_id = "err_" <> task_text task_id <> "_" <> to_string elapsed;
        task_id = task_id;
        error = error;
        timestamp = now;
        handling_result = handled;
        recovery_time = none;
      }
          ∷ []);
}

unfoldable pub transform_error_for_propagation :
    AsyncExecutionError → (target_task : ℕ) → AsyncExecutionError
unfolding task_text
transform_error_for_propagation (resource_conflict _ resource reason) target_task =
    resource_conflict ("task_" <> task_text target_task) resource ("Propagated: " <> reason)
transform_error_for_propagation (system_error _ message) target_task =
    system_error ("task_" <> task_text target_task) ("Propagated: " <> message)
transform_error_for_propagation other target_task = other

-- The chain of one target with the source in its path and the error that it is given.
unfoldable pub propagated_chain :
    (now source_task : ℕ) → AsyncExecutionError → (target_task : ℕ) → ErrorChain → ErrorChain
unfolding chained transform_error_for_propagation
propagated_chain now source_task error target_task chain = record chain {
  propagation_path = chain.propagation_path ++ (source_task ∷ []);
  errors = chain.errors ++ (chained now (transform_error_for_propagation error target_task) ∷ []);
}

unfoldable pub propagate_error :
    (now source_task : ℕ)
    → AsyncExecutionError
    → (target_tasks : List ℕ) → HashMap ℕ ErrorChain
    → HashMap ℕ ErrorChain
unfolding chain_or_new propagated_chain get insert
propagate_error now source_task error [] chains = chains
propagate_error now source_task error (target_task ∷ rest) chains =
    propagate_error now source_task error rest (
      insert target_task
        (propagated_chain now source_task error target_task
          (chain_or_new now target_task (get target_task chains)))
        chains)

-- The `match` on the result of one handler: the attempts of the chain, and whether `handle_error`
-- returns. It holds the lock of the chains when it calls `propagate_error`, which asks for it again
-- and never gets it: that is `none`.
unfoldable pub act :
    ErrorHandlingConfig
    → (recovery_attempts : ℕ) → ErrorHandlingResult
    → Option (ℕ × Option ErrorHandlingResult)
act config attempts handled = some (attempts, some handled)
act config attempts (ErrorHandlingResult.retry delay) = some (
    if ltb attempts config.max_retry_attempts
    then (attempts + 1, some (ErrorHandlingResult.retry delay))
    else (attempts, none))
act config attempts (ErrorHandlingResult.fallback new_task_id) =
    some (attempts, some (ErrorHandlingResult.fallback new_task_id))
act config attempts (ErrorHandlingResult.propagate target_tasks) = none
act config attempts abort = some (attempts, some abort)

-- Every handler's result is `Abort`. The attempts of the chain stand beside what is returned.
unfoldable pub execute_handlers :
    ErrorHandlingConfig
    → (recovery_attempts : ℕ) → List ErrorHandler
    → Option (ℕ × ErrorHandlingResult)
unfolding act
execute_handlers config attempts [] = some (attempts, abort)
execute_handlers config attempts (_ ∷ handlers) = elim (act config attempts abort) [
  | none ↦ none
  | some (after, some result) ↦ some (after, result)
  | some (after, none) ↦ execute_handlers config after handlers
]

-- The task's chain with the error added.
unfoldable pub add_error : (now : ℕ) → AsyncExecutionError → ErrorChain → ErrorChain
unfolding chained
add_error now error chain = record chain {
  errors = chain.errors ++ (chained now error ∷ []);
  last_error_time = now;
}

unfoldable pub finish_handling :
    (task_id : ℕ)
    → ErrorChain
    → ErrorPropagationManager
    → Option (ℕ × ErrorHandlingResult)
    → Option (ErrorPropagationManager × ErrorHandlingResult)
unfolding insert
finish_handling task_id chain s none = none
finish_handling task_id chain s (some (attempts, result)) = some (
  record s {
    propagation_chains =
        insert task_id (record chain { recovery_attempts = attempts }) s.propagation_chains;
  },
  result,
)

-- It never returns an error: `none` is the call that does not end.
unfoldable pub handle_error :
    (now elapsed task_id : ℕ)
    → AsyncExecutionError
    → ErrorPropagationManager
    → Option (ErrorPropagationManager × ErrorHandlingResult)
unfolding record_error_event chain_or_new add_error get find_matching_handlers execute_handlers
    finish_handling
handle_error now elapsed task_id error s =
    let recorded = record_error_event now elapsed task_id error s in
    let chain =
      add_error now error (chain_or_new now task_id (get task_id recorded.propagation_chains)) in
    finish_handling task_id chain recorded (
      execute_handlers recorded.config chain.recovery_attempts
        (find_matching_handlers error recorded))
