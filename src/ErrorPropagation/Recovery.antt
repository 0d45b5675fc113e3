-- ===== src/ErrorPropagation/Recovery.antt =====
-- src/error_propagation.rs: the recovery of a task by a strategy.
use tricti.Base.{
  ℕ, ◌-◌, ◌*◌, ◌/◌, ◌^◌, ltb, ◌&&◌, String, ◌<>◌, Bool, true, Option, none, some, List, [], ◌∷◌,
  leb, if◌then◌else◌, text_key, number_key, map,
}
use tricti.Base.Result.{Result, ok, err}
use tricti.Base.HashMap.{get}
use tricti.ErrorPropagation.State.{
  ErrorPropagationManager, ErrorChain, RecoveryStrategy, BackoffStrategy, linear, exponential,
  fixed, RetryCondition, error_type, resource_available, time_limit, dependency_resolved,
  RecoveryResult, success, partial_success, failure, retry_scheduled, error_propagated, text,
  circuit_breaker_triggered,
}

-- An instant's `elapsed` is 0 where the instant is later.
within_limit : (now limit : ℕ) → Option ErrorChain → Bool
within_limit now limit none = true
within_limit now limit (some chain) = leb (now - chain.last_error_time) limit

unfoldable pub check_retry_condition :
    (now : ℕ) → ErrorPropagationManager → RetryCondition → (task_id : ℕ) → Bool
unfolding within_limit get
check_retry_condition now s (error_type _) task_id = true
check_retry_condition now s (resource_available _) task_id = true
check_retry_condition now s (time_limit limit) task_id =
    within_limit now limit (get task_id s.propagation_chains)
check_retry_condition now s (dependency_resolved _) task_id = true

unfoldable pub conditions_met :
    (now : ℕ) → ErrorPropagationManager → (task_id : ℕ) → List RetryCondition → Bool
unfolding check_retry_condition
conditions_met now s task_id [] = true
conditions_met now s task_id (condition ∷ conditions) =
    check_retry_condition now s condition task_id && conditions_met now s task_id conditions

unfoldable pub attempts_of : Option ErrorChain → ℕ
attempts_of none = 0
attempts_of (some chain) = chain.recovery_attempts

unfoldable pub execute_propagation_recovery : (target_tasks : List ℕ) → RecoveryResult
execute_propagation_recovery target_tasks = partial_success (map error_propagated target_tasks)

unfoldable pub execute_circuit_breaker_recovery :
    (failure_threshold recovery_timeout : ℕ) → RecoveryResult
execute_circuit_breaker_recovery failure_threshold recovery_timeout =
    failure (circuit_breaker_triggered failure_threshold recovery_timeout)

-- What a duration may be, in nanoseconds: a u64 of seconds and a fraction.
duration_limit : ℕ
duration_limit = 2 ^ 64 * 1000000000

-- `scaled base_millis multiplier retry_count` is the product of the language's floats,
-- `(base_millis as f64 * multiplier.powi(retry_count)) as u64`.
module _ (scaled : (base_millis multiplier retry_count : ℕ) → ℕ) where
  -- `none` is a panic: a product of a duration and a number that does not fit.
  unfoldable pub calculate_backoff_delay : BackoffStrategy → (retry_count : ℕ) → Option ℕ
  unfolding duration_limit
  calculate_backoff_delay (linear base) retry_count =
      if ltb (base * retry_count) duration_limit then some (base * retry_count) else none
  calculate_backoff_delay (exponential base multiplier) retry_count =
      some (scaled (base / 1000000) multiplier retry_count * 1000000)
  calculate_backoff_delay (fixed duration) retry_count = some duration

  unfoldable pub scheduled : Option ℕ → Option RecoveryResult
  scheduled none = none
  scheduled (some delay) = some (partial_success (retry_scheduled delay ∷ []))

  unfoldable pub execute_retry_recovery :
      (now task_id max_attempts : ℕ)
      → BackoffStrategy
      → List RetryCondition
      → ErrorPropagationManager
      → Option RecoveryResult
  unfolding conditions_met attempts_of get calculate_backoff_delay scheduled
  execute_retry_recovery now task_id max_attempts backoff_strategy conditions s =
      let retry_count = attempts_of (get task_id s.propagation_chains) in
      if conditions_met now s task_id conditions
      then if leb max_attempts retry_count
        then some (failure (text "Maximum retry attempts exceeded"))
        else scheduled (calculate_backoff_delay backoff_strategy retry_count)
      else some (failure (text "Retry conditions not met"))

  unfoldable pub execute_recovery :
      (now task_id : ℕ) → RecoveryStrategy → ErrorPropagationManager → Option RecoveryResult
  unfolding execute_retry_recovery execute_propagation_recovery execute_circuit_breaker_recovery
  execute_recovery now task_id (RecoveryStrategy.retry max_attempts backoff_strategy conditions) s =
      execute_retry_recovery now task_id max_attempts backoff_strategy conditions s
  execute_recovery now task_id (RecoveryStrategy.fallback _ _) s = some success
  execute_recovery now task_id (RecoveryStrategy.isolate _ _) s = some success
  execute_recovery now task_id (RecoveryStrategy.restart _ _) s = some success
  execute_recovery now task_id (RecoveryStrategy.propagate target_tasks) s =
      some (execute_propagation_recovery target_tasks)
  execute_recovery now task_id (RecoveryStrategy.circuit_breaker threshold recovery_timeout) s =
      some (execute_circuit_breaker_recovery threshold recovery_timeout)

  -- The `match` that clones a strategy: a retry, with another backoff and without its conditions, or
  -- else an answer at once.
  unfoldable pub cloned :
      (strategy_name : String) → Option RecoveryStrategy → Result RecoveryResult RecoveryStrategy
  cloned strategy_name none =
      err (failure (text ("Recovery strategy '" <> strategy_name <> "' not found")))
  cloned strategy_name (some (RecoveryStrategy.retry max_attempts _ _)) =
      ok (RecoveryStrategy.retry max_attempts (fixed 100000000) [])
  cloned strategy_name (some _) = err (failure (text "Strategy not implemented"))

  -- It never returns an error, and it changes nothing.
  unfoldable pub attempt_recovery :
      (now task_id : ℕ) → (strategy_name : String) → ErrorPropagationManager → Option RecoveryResult
  unfolding cloned execute_recovery get
  attempt_recovery now task_id strategy_name s =
      elim (cloned strategy_name (get strategy_name s.recovery_strategies)) [
        | err answer ↦ some answer
        | ok strategy ↦ execute_recovery now task_id strategy s
      ]
