-- ===== src/Lifecycle/Manager/Expiry.antt =====
-- src/resource_lifecycle.rs: `process_expired_leases`.
use tricti.Base.{ℕ, String, Bool, true, false, List, [], ◌∷◌, ◌++◌, ok, err}
use tricti.Lifecycle.Timeouts.{get_expired_timeouts}
use tricti.Lifecycle.Manager.{lease_expiry, LifecycleEvent, lease_expired, ResourceLifecycleManager}
use tricti.Lifecycle.Manager.Release.{Effect, release_resource}

-- The loop; the first argument is the policy `auto_release_on_timeout`. An error ends the loop.
unfoldable pub release_expired :
    Bool
    → ResourceLifecycleManager
    → List (String × ℕ)
    → List LifecycleEvent
    → Effect (List LifecycleEvent)
unfolding release_resource
release_expired auto s [] events = (s, ok events)
release_expired false s (_ ∷ rest) events = release_expired false s rest events
release_expired true s ((resource_name, task_id) ∷ rest) events =
    let (s', outcome) = release_resource s resource_name task_id lease_expiry in
    elim outcome [
      | err e ↦ (s', err e)
      | ok _ ↦ release_expired true s' rest (events ++ lease_expired resource_name task_id ∷ [])
    ]

unfoldable pub process_expired_leases : ℕ → ResourceLifecycleManager → Effect (List LifecycleEvent)
unfolding release_expired get_expired_timeouts
process_expired_leases now s =
    let (left, expired) = get_expired_timeouts now s.timeouts in
    release_expired s.policies.auto_release_on_timeout (record s { timeouts = left }) expired []
