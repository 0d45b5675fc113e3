-- ===== src/Lifecycle/Timeouts.antt =====
-- src/resource_lifecycle.rs: `LeaseTimeoutManager`, whose one field is the queue that is modelled
-- here. Durations and points in time are numbers of nanoseconds.
pub mod Queue
use tricti.Base.{
  ℕ, zero, suc, ◌+◌, String, Bool, not, ◌&&◌, List, [], ◌∷◌, ltb, leb, ◌==◌, retain, if◌then◌else◌,
  text_key, number_key,
}

pub record LeaseTimeout : Type 0 where
  pub resource_name : String
  pub task_id : ℕ
  pub timeout_at : ℕ

-- The index that the loop of `schedule_timeout` finds.
unfoldable pub insertion_index : LeaseTimeout → List LeaseTimeout → ℕ
insertion_index timeout [] = 0
insertion_index timeout (existing ∷ timeouts) =
    let rest = insertion_index timeout timeouts in
    if ltb timeout.timeout_at existing.timeout_at then 0 else suc rest

-- `VecDeque::insert`, at an index that is not beyond the end.
unfoldable pub insert_at {ℓ} : {A : Type ℓ} → ℕ → A → List A → List A
insert_at zero x ys = x ∷ ys
insert_at (suc i) x [] = x ∷ []
insert_at (suc i) x (y ∷ ys) = y ∷ insert_at i x ys

unfoldable pub schedule_timeout : ℕ → List LeaseTimeout → String → ℕ → ℕ → List LeaseTimeout
unfolding insertion_index insert_at
schedule_timeout now timeouts resource_name task_id duration =
    let timeout : LeaseTimeout = record {
      resource_name = resource_name;
      task_id = task_id;
      timeout_at = now + duration;
    } in
    insert_at (insertion_index timeout timeouts) timeout timeouts

unfoldable pub is_for : String → ℕ → LeaseTimeout → Bool
is_for resource_name task_id timeout =
    timeout.resource_name == resource_name && timeout.task_id == task_id

unfoldable pub cancel_timeout : List LeaseTimeout → String → ℕ → List LeaseTimeout
unfolding is_for
cancel_timeout timeouts resource_name task_id =
    retain (λ timeout. not (is_for resource_name task_id timeout)) timeouts

unfoldable pub is_due : ℕ → LeaseTimeout → Bool
is_due now timeout = leb timeout.timeout_at now

-- The queue that is left, and the leases that have expired.
unfoldable pub get_expired_timeouts : ℕ → List LeaseTimeout → List LeaseTimeout × List (String × ℕ)
get_expired_timeouts now [] = ([], [])
get_expired_timeouts now (timeout ∷ timeouts) =
    let (left, expired) = get_expired_timeouts now timeouts in
    if is_due now timeout
    then (left, (timeout.resource_name, timeout.task_id) ∷ expired)
    else (timeout ∷ timeouts, [])
