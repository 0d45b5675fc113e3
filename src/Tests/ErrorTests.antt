-- ===== src/Tests/ErrorTests.antt =====
-- src/error_propagation.rs: the theorems on errors at concrete inputs, and runs.
use tricti.Base.{
  ℕ, ◌≡◌, refl, some, none, List, [], ◌∷◌, String, map, All, leb, ◌*◌, ◌^◌, true, number_key,
  text_key,
}
use tricti.Base.HashMap.{get}
use tricti.ErrorPropagation.State
use tricti.ErrorPropagation.State.{
  AsyncExecutionError, system_error, timeout, ErrorHandlingConfig, default_config, ErrorHandler,
  ErrorPattern, ErrorPropagationManager, register_error_handler, register_recovery_strategy,
  RecoveryStrategy, exact_type, type_pattern, source_system, linear, time_limit, partial_success,
  retry_scheduled,
}
use tricti.ErrorPropagation.Matching.{find_matching_handlers, matching_of, matches_error_pattern}
use tricti.Base.Sort.{IsSorted}
use tricti.ErrorPropagation.Handle.{handle_error, record_error_event}
use tricti.ErrorPropagation.Recovery.{attempt_recovery}
use tricti.ErrorPropagation.Handled.{after}
use tricti.ErrorPropagation.Session.{
  Call, registers_handler, registers_strategy, handles, run, step, IsUntried, run-new-IsUntried,
  attempt_recovery_unbounded,
}
use tricti.ErrorPropagation.Ranked.{AllFound, has_id, find_matching_handlers_lem}

abbrev small_config : ErrorHandlingConfig
small_config = record default_config { error_history_size = 2 }

abbrev handler_of : String → ErrorPattern → ℕ → ErrorHandler
handler_of id pattern priority = record {
  handler_id = id;
  error_pattern = pattern;
  priority = priority;
  max_retries = none;
}

abbrev broken : AsyncExecutionError
broken = system_error "physics" "division by zero"

abbrev three_failures : List Call
three_failures =
    registers_handler "SystemError" (handler_of "log" (exact_type "SystemError") 1)
    ∷ registers_handler "Any" (handler_of "restart" (source_system "physics") 5)
    ∷ registers_handler "Any" (handler_of "wait" (exact_type "Timeout") 9)
    ∷ registers_strategy "again" (RecoveryStrategy.retry 1 (linear 7) (time_limit 0 ∷ []))
    ∷ handles 10 0 4 broken
    ∷ handles 20 0 4 (timeout "physics" 3)
    ∷ handles 30 0 4 broken
    ∷ []

abbrev prepared : ErrorPropagationManager
prepared =
    register_recovery_strategy "again" (RecoveryStrategy.retry 1 (linear 7) (time_limit 0 ∷ [])) (
      register_error_handler "Any" (handler_of "wait" (exact_type "Timeout") 9) (
        register_error_handler "Any" (handler_of "restart" (source_system "physics") 5) (
          register_error_handler "SystemError" (handler_of "log" (exact_type "SystemError") 1)
            (State.new small_config))))

abbrev failed : ErrorPropagationManager
failed = after 30 0 4 broken (after 20 0 4 (timeout "physics" 3) (after 10 0 4 broken prepared))

-- A handler that another one of its identifier does not follow directly is kept twice.
abbrev twice : ErrorPropagationManager
twice = record (State.new small_config) {
  error_handlers =
      (
        "SystemError",
        handler_of "log" (exact_type "SystemError") 9
            ∷ handler_of "restart" (exact_type "SystemError") 5
            ∷ handler_of "log" (type_pattern "Error") 1
            ∷ [],
      )
      ∷ [];
}

run-new-IsUntried_example :
    (s : ErrorPropagationManager) × (run (State.new small_config) three_failures ≡ some s)
    × IsUntried small_config s
run-new-IsUntried_example = run-new-IsUntried small_config three_failures

failed-runs : run (State.new small_config) three_failures ≡ some failed
unfolding run step handle_error register_recovery_strategy register_error_handler State.new
    matching_of
failed-runs = refl

failed-knows :
    get "again" failed.recovery_strategies
    ≡ some (RecoveryStrategy.retry 1 (linear 7) (time_limit 0 ∷ []))
unfolding State.new register_error_handler register_recovery_strategy get record_error_event
failed-knows = refl

-- The third failure of the task, at a time past the limit in the conditions.
attempt_recovery_unbounded_example :
    attempt_recovery (λ base multiplier retries. base * multiplier ^ retries) 99 4 "again" failed
    ≡ some (partial_success (retry_scheduled 100000000 ∷ []))
attempt_recovery_unbounded_example =
    attempt_recovery_unbounded (λ base multiplier retries. base * multiplier ^ retries) small_config
      three_failures 99 4 0 "again" (linear 7) (time_limit 0 ∷ []) failed failed-runs failed-knows

find_matching_handlers_lem_example :
    All
      (λ h. leb h.priority 9 ≡ true × (matches_error_pattern h.error_pattern broken ≡ true))
      (find_matching_handlers broken twice)
    × IsSorted (λ a b. leb b.priority a.priority) (find_matching_handlers broken twice)
    × AllFound broken (λ id. has_id id (find_matching_handlers broken twice)) twice.error_handlers
unfolding get
find_matching_handlers_lem_example =
    find_matching_handlers_lem (λ h. leb h.priority 9 ≡ true) broken twice (refl, tt)
      ((refl, (refl, (refl, tt))), tt)

found_twice :
    map (λ h. h.handler_id) (find_matching_handlers broken twice) ≡ "log" ∷ "restart" ∷ "log" ∷ []
unfolding find_matching_handlers matching_of
found_twice = refl
