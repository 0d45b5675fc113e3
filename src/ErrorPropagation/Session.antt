-- ===== src/ErrorPropagation/Session.antt =====
-- src/error_propagation.rs: histories of calls on the manager, and retries after them.
use tricti.Base.{
  ℕ, suc, ◌≤◌, ◌≡◌, refl, ap, ◌∙◌, subst, Bool-cases, inl, inr, max, arith, String, Option, none,
  some, List, [], ◌∷◌, length, ◌==◌, text_key, number_key,
}
use tricti.Base.HashMap.{get, get-insert}
use tricti.ErrorPropagation.State.{
  AsyncExecutionError, ErrorHandler, ErrorChain, ErrorHandlingConfig, ErrorPropagationManager,
  ErrorHandlingResult, RecoveryStrategy, BackoffStrategy, RetryCondition, new,
  register_error_handler, register_recovery_strategy, partial_success, retry_scheduled,
}
use tricti.ErrorPropagation.Handle.{record_error_event, add_error, chain_or_new, handle_error}
use tricti.ErrorPropagation.Recovery.{
  cloned, scheduled, execute_recovery, attempts_of, attempt_recovery, execute_retry_recovery,
  conditions_met, calculate_backoff_delay,
}
use tricti.ErrorPropagation.Handled.{after, handle_error-after, make_room-le}

-- A call that changes the state, with what the clock shows.
pub data Call : Type 0 where
  registers_handler : (error_type : String) (handler : ErrorHandler) → Call
  registers_strategy : (strategy_name : String) (strategy : RecoveryStrategy) → Call
  handles : (now elapsed task_id : ℕ) (error : AsyncExecutionError) → Call

left : Option (ErrorPropagationManager × ErrorHandlingResult) → Option ErrorPropagationManager
left none = none
left (some (s, _)) = some s

unfoldable pub step : ErrorPropagationManager → Call → Option ErrorPropagationManager
unfolding left
step s (registers_handler error_type handler) = some (register_error_handler error_type handler s)
step s (registers_strategy strategy_name strategy) =
    some (register_recovery_strategy strategy_name strategy s)
step s (handles now elapsed task_id error) = left (handle_error now elapsed task_id error s)

unfoldable pub run : ErrorPropagationManager → List Call → Option ErrorPropagationManager
run s [] = some s
run s (call ∷ calls) = elim (step s call) [ none ↦ none | some s' ↦ run s' calls ]

-- The history keeps its size, under one configuration, and no recovery was counted.
abbrev pub IsUntried : ErrorHandlingConfig → ErrorPropagationManager → Type 0
IsUntried config s =
    (s.config ≡ config)
    × (length s.error_history ≤ max 1 config.error_history_size)
    × ((task_id : ℕ) → attempts_of (get task_id s.propagation_chains) ≡ 0)

add_error-attempts_of :
    (now task_id : ℕ) (error : AsyncExecutionError) (before : Option ErrorChain)
    → attempts_of (some (add_error now error (chain_or_new now task_id before)))
      ≡ attempts_of before
unfolding add_error chain_or_new attempts_of
add_error-attempts_of now task_id error none = refl
add_error-attempts_of now task_id error (some chain) = refl

after-IsUntried :
    {config : ErrorHandlingConfig} (now elapsed task_id : ℕ) (error : AsyncExecutionError)
    (s : ErrorPropagationManager)
    → IsUntried config s
    → IsUntried config (after now elapsed task_id error s)
unfolding record_error_event
after-IsUntried now elapsed task_id error s (same, bounded, untried) = (
  same,
  rw same (make_room-le _ s.error_history _ bounded),
  λ other. elim (Bool-cases (task_id == other)) [
    | inl e ↦
        rw (get-insert task_id other _ s.propagation_chains, e)
          (add_error-attempts_of now task_id error (get task_id s.propagation_chains)
            ∙ untried task_id)
    | inr e ↦ rw (get-insert task_id other _ s.propagation_chains, e) (untried other)
  ],
)

step-IsUntried :
    {config : ErrorHandlingConfig} (s : ErrorPropagationManager) (call : Call)
    → IsUntried config s
    → (s' : ErrorPropagationManager) × (step s call ≡ some s') × IsUntried config s'
unfolding step register_error_handler register_recovery_strategy
step-IsUntried s (registers_handler error_type handler) h = (_, refl, h)
step-IsUntried s (registers_strategy strategy_name strategy) h = (_, refl, h)
step-IsUntried s (handles now elapsed task_id error) h = (
  _,
  ap left (handle_error-after now elapsed task_id error s),
  after-IsUntried now elapsed task_id error s h,
)

run-IsUntried :
    {config : ErrorHandlingConfig} (s : ErrorPropagationManager) (calls : List Call)
    → IsUntried config s
    → (s' : ErrorPropagationManager) × (run s calls ≡ some s') × IsUntried config s'
unfolding run
run-IsUntried s [] h = (s, refl, h)
run-IsUntried s (call ∷ calls) h =
    let (next, e, k) = step-IsUntried s call h in
    let (last, f, l) = run-IsUntried next calls k in (last, rw (run, e) f, l)

-- Every history of calls on a new manager ends: no call waits for a lock that it holds itself. After
-- it the history has at most as many events as the configuration says, or one where that is none, and
-- no attempt of recovery was counted for any task.
pub run-new-IsUntried :
    (config : ErrorHandlingConfig) (calls : List Call)
    → (s : ErrorPropagationManager) × (run (new config) calls ≡ some s) × IsUntried config s
unfolding new attempts_of get
run-new-IsUntried config calls =
    run-IsUntried (new config) calls (refl, omega arith, λ task_id. refl)

module _ (scaled : (base_millis multiplier retry_count : ℕ) → ℕ) where
  -- However often a task has failed, a strategy that retries at least once schedules one more retry,
  -- after 100 milliseconds, whatever its own delays and conditions are.
  pub attempt_recovery_unbounded :
      (config : ErrorHandlingConfig) (calls : List Call) (now task_id max_attempts : ℕ)
      (strategy_name : String) (backoff : BackoffStrategy) (conditions : List RetryCondition)
      → (s : ErrorPropagationManager) → run (new config) calls ≡ some s
      → get strategy_name s.recovery_strategies
        ≡ some (RecoveryStrategy.retry (suc max_attempts) backoff conditions)
      → attempt_recovery scaled now task_id strategy_name s
        ≡ some (partial_success (retry_scheduled 100000000 ∷ []))
  unfolding attempt_recovery cloned execute_recovery execute_retry_recovery conditions_met
      calculate_backoff_delay scheduled
  attempt_recovery_unbounded config calls now task_id max_attempts strategy_name backoff conditions
        s ran found =
      let (last, e, h) = run-new-IsUntried config calls in
      let untried =
        subst {A = ErrorPropagationManager}
          (λ m. attempts_of (get task_id m.propagation_chains) ≡ 0) {x = last} {y = s} (cc (e, ran))
          (h.2 task_id) in
      rw (attempt_recovery, found, untried) (ground arith)
