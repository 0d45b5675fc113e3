-- ===== src/ErrorPropagation/Handled.antt =====
-- src/error_propagation.rs: what handling an error leaves.
use tricti.Base.{
  ℕ, ◌≤◌, ◌≡◌, refl, ap, Bool-cases, inl, inr, max, arith, Option, none, some, List, [], ◌∷◌, ◌++◌,
  leb, length, length-append, number_key,
}
use tricti.Base.HashMap.{get, insert}
use tricti.ErrorPropagation.State.{
  AsyncExecutionError, ErrorHandler, ErrorChain, ChainedError, ErrorHandlingConfig, abort,
  ErrorEvent, ErrorPropagationManager,
}
use tricti.ErrorPropagation.Handle.{
  chain_or_new, chained, make_room, record_error_event, act, execute_handlers, add_error,
  finish_handling, handle_error,
}
use tricti.ErrorPropagation.Matching.{find_matching_handlers}
use tricti.ErrorPropagation.Recovery.{attempts_of}

-- No handler changes anything.
execute_handlers_lem :
    (config : ErrorHandlingConfig) (attempts : ℕ) (handlers : List ErrorHandler)
    → execute_handlers config attempts handlers ≡ some (attempts, abort)
unfolding execute_handlers act
execute_handlers_lem config attempts [] = refl
execute_handlers_lem config attempts (_ ∷ handlers) = refl

-- The state that is left.
abbrev pub after :
    (now elapsed task_id : ℕ)
    → AsyncExecutionError
    → ErrorPropagationManager
    → ErrorPropagationManager
after now elapsed task_id error s =
    let recorded = record_error_event now elapsed task_id error s in
    record recorded {
      propagation_chains =
          insert task_id
            (add_error now error (chain_or_new now task_id (get task_id s.propagation_chains)))
            s.propagation_chains;
    }

pub handle_error-after :
    (now elapsed task_id : ℕ) (error : AsyncExecutionError) (s : ErrorPropagationManager)
    → handle_error now elapsed task_id error s ≡ some (after now elapsed task_id error s, abort)
unfolding handle_error finish_handling record_error_event add_error
handle_error-after now elapsed task_id error s =
    let recorded = record_error_event now elapsed task_id error s in
    let chain = add_error now error (chain_or_new now task_id (get task_id s.propagation_chains)) in
    ap (finish_handling task_id chain recorded) (
      execute_handlers_lem s.config chain.recovery_attempts (find_matching_handlers error recorded))

abbrev pub errors_of : Option ErrorChain → List ChainedError
errors_of none = []
errors_of (some chain) = chain.errors

abbrev pub path_of : Option ErrorChain → List ℕ
path_of none = []
path_of (some chain) = chain.propagation_path

-- The errors of a chain, its attempts and its path, after one more error.
abbrev pub ChainAfter :
    (now : ℕ) → AsyncExecutionError → (before after : Option ErrorChain) → Type 0
ChainAfter now error before after =
    (errors_of after ≡ errors_of before ++ (chained now error ∷ []))
    × (attempts_of after ≡ attempts_of before)
    × (path_of after ≡ path_of before)

pub make_room-le :
    (size : ℕ) (history : List ErrorEvent) (event : ErrorEvent)
    → length history ≤ max 1 size
    → length (make_room size history ++ (event ∷ [])) ≤ max 1 size
unfolding make_room
make_room-le size [] event h = omega arith
make_room-le size (e ∷ history) event h = elim (Bool-cases (leb size (length (e ∷ history)))) [
  | inl full ↦ rw (full, length-append history (event ∷ [])) (omega (arith, h))
  | inr room ↦ rw (room, length-append (e ∷ history) (event ∷ [])) (ground (arith, h, room))
]
