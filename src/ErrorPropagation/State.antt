-- ===== src/ErrorPropagation/State.antt =====
-- src/error_propagation.rs: the state of the manager, its handlers and strategies, and the errors that
-- it handles, of src/async_runtime.rs. A duration or an instant is in nanoseconds, an `f64` is its 64
-- bits.
use tricti.Base.{ℕ, String, Bool, true, Option, none, some, List, [], ◌++◌, ◌∷◌, text_key}
use tricti.Base.HashMap.{HashMap, get, insert}
use tricti.Scheduler.Error.{SchedulerError}
use tricti.Table.Error.{TableError}

pub data AsyncExecutionError : Type 0 where
  resource_conflict : (system resource reason : String) → AsyncExecutionError
  scheduling_error : SchedulerError → AsyncExecutionError
  table_error : TableError → AsyncExecutionError
  system_error : (system message : String) → AsyncExecutionError
  timeout : (system : String) (duration : ℕ) → AsyncExecutionError
  cancelled : (system : String) → AsyncExecutionError
  resource_lifecycle_error : (resource phase reason : String) → AsyncExecutionError

pub record ErrorHandlingConfig : Type 0 where
  pub max_retry_attempts : ℕ
  pub retry_backoff_base : ℕ
  pub max_backoff_duration : ℕ
  pub error_history_size : ℕ
  pub propagation_timeout : ℕ
  pub enable_circuit_breaker : Bool
  pub circuit_breaker_threshold : ℕ

-- `ErrorHandlingConfig::default()`.
abbrev pub default_config : ErrorHandlingConfig
default_config = record {
  max_retry_attempts = 3;
  retry_backoff_base = 1000000000;
  max_backoff_duration = 60000000000;
  error_history_size = 1000;
  propagation_timeout = 10000000000;
  enable_circuit_breaker = true;
  circuit_breaker_threshold = 5;
}

pub data ErrorPattern : Type 0 where
  exact_type type_pattern source_system resource_name custom : String → ErrorPattern

pub record ErrorHandler : Type 0 where
  pub handler_id : String
  pub error_pattern : ErrorPattern
  pub priority : ℕ
  pub max_retries : Option ℕ

-- What was not solved, as the code prints it.
pub data Issue : Type 0 where
  retry_scheduled : (delay : ℕ) → Issue
  error_propagated : (task : ℕ) → Issue

-- A reason is its text; the one that prints a duration keeps it.
pub data FailureReason : Type 0 where
  text : String → FailureReason
  circuit_breaker_triggered : (threshold timeout : ℕ) → FailureReason

pub data RecoveryResult : Type 0 where
  success : RecoveryResult
  partial_success : (remaining_issues : List Issue) → RecoveryResult
  failure : (reason : FailureReason) → RecoveryResult
  requires_manual_intervention : RecoveryResult

pub record ChainedError : Type 0 where
  pub error : AsyncExecutionError
  pub occurred_at : ℕ
  pub recovery_attempted : Bool
  pub recovery_result : Option RecoveryResult
  pub propagated_to : List ℕ

pub record ErrorChain : Type 0 where
  pub task_id : ℕ
  pub errors : List ChainedError
  pub recovery_attempts : ℕ
  pub last_error_time : ℕ
  pub propagation_path : List ℕ

pub data BackoffStrategy : Type 0 where
  linear : (base : ℕ) → BackoffStrategy
  exponential : (base multiplier : ℕ) → BackoffStrategy
  fixed : (duration : ℕ) → BackoffStrategy

pub data RetryCondition : Type 0 where
  error_type : String → RetryCondition
  resource_available : String → RetryCondition
  time_limit : ℕ → RetryCondition
  dependency_resolved : (task : ℕ) → RetryCondition

pub data RecoveryStrategy : Type 0 where
  retry :
      (max_attempts : ℕ) (backoff_strategy : BackoffStrategy) (conditions : List RetryCondition)
      → RecoveryStrategy
  fallback :
      (fallback_system : String) (fallback_parameters : HashMap String String) → RecoveryStrategy
  isolate : (release_resources notify_dependents : Bool) → RecoveryStrategy
  restart : (restart_delay : ℕ) (preserve_state : Bool) → RecoveryStrategy
  propagate : (target_tasks : List ℕ) → RecoveryStrategy
  circuit_breaker : (failure_threshold recovery_timeout : ℕ) → RecoveryStrategy

pub data ErrorHandlingResult : Type 0 where
  handled : ErrorHandlingResult
  retry : (delay : ℕ) → ErrorHandlingResult
  fallback : (new_task_id : ℕ) → ErrorHandlingResult
  propagate : (target_tasks : List ℕ) → ErrorHandlingResult
  abort : ErrorHandlingResult

pub record ErrorEvent : Type 0 where
  pub event_id : String
  pub task_id : ℕ
  pub error : AsyncExecutionError
  pub timestamp : ℕ
  pub handling_result : ErrorHandlingResult
  pub recovery_time : Option ℕ

pub record ErrorPropagationManager : Type 0 where
  pub error_handlers : HashMap String (List ErrorHandler)
  pub propagation_chains : HashMap ℕ ErrorChain
  pub recovery_strategies : HashMap String RecoveryStrategy
  pub error_history : List ErrorEvent
  pub config : ErrorHandlingConfig

unfoldable pub new : ErrorHandlingConfig → ErrorPropagationManager
new config = record {
  error_handlers = [];
  propagation_chains = [];
  recovery_strategies = [];
  error_history = [];
  config = config;
}

-- The handlers under one type of error, none at first.
handlers_of : Option (List ErrorHandler) → List ErrorHandler
handlers_of none = []
handlers_of (some handlers) = handlers

unfoldable pub register_error_handler :
    String → ErrorHandler → ErrorPropagationManager → ErrorPropagationManager
unfolding handlers_of get insert
register_error_handler type_name handler s = record s {
  error_handlers =
      insert type_name (handlers_of (get type_name s.error_handlers) ++ (handler ∷ []))
        s.error_handlers;
}

unfoldable pub register_recovery_strategy :
    String → RecoveryStrategy → ErrorPropagationManager → ErrorPropagationManager
unfolding insert
register_recovery_strategy strategy_name strategy s = record s {
  recovery_strategies = insert strategy_name strategy s.recovery_strategies;
}
