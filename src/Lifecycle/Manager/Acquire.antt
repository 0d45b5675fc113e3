-- ===== src/Lifecycle/Manager/Acquire.antt =====
-- src/resource_lifecycle.rs: `acquire_resource`, `update_resource_dependencies`.
use tricti.Base.{
  ℕ, String, ◌<>◌, true, not, Option, none, some, List, [], if◌then◌else◌, ok, err, text_key,
}
use tricti.Base.HashMap
use tricti.Ast.{ResourceAccess}
use tricti.Lifecycle.Timeouts.{schedule_timeout}
use tricti.Lifecycle.Graph.{ResourceDependencyGraph}
use tricti.Lifecycle.Manager.{
  ResourceLease, ResourceLifecyclePolicies, AcquisitionResult, acquired, deadlock_detected,
  resource_conflict, ResourceLifecycleManager, task_text, check_acquisition_feasibility,
  calculate_wait_time, detect_deadlock,
}
use tricti.Lifecycle.Manager.Release.{Effect}

unfoldable pub update_resource_dependencies :
    ResourceDependencyGraph → String → ResourceDependencyGraph
unfolding HashMap.or_insert
update_resource_dependencies g resource_name = record g {
  dependencies = HashMap.or_insert resource_name [] g.dependencies;
  dependents = HashMap.or_insert resource_name [] g.dependents;
}

-- `lease_duration.unwrap_or(default_lease_duration)`
unfoldable pub duration_or_default : ResourceLifecyclePolicies → Option ℕ → ℕ
duration_or_default policies none = policies.default_lease_duration
duration_or_default policies (some lease_duration) = lease_duration

-- What is done once the lease may be granted. `later` is the clock at the second reading, for the
-- timeout.
unfoldable pub grant : ℕ → ResourceLifecycleManager → ResourceLease → ResourceLifecycleManager
unfolding update_resource_dependencies schedule_timeout HashMap.insert
grant later s lease = record s {
  active_leases = HashMap.insert lease.resource_name lease s.active_leases;
  timeouts =
      if lease.auto_release
      then schedule_timeout later s.timeouts lease.resource_name lease.task_id lease.lease_duration
      else s.timeouts;
  resource_graph = update_resource_dependencies s.resource_graph lease.resource_name;
}

unfoldable pub new_lease : ℕ → String → ℕ → ResourceAccess → ℕ → ResourceLease
new_lease now resource_name task_id access_type lease_duration = record {
  resource_name = resource_name;
  task_id = task_id;
  access_type = access_type;
  acquired_at = now;
  lease_duration = lease_duration;
  auto_release = true;
  reference_count = 1;
  dependencies = [];
}

-- The cycle to report, if deadlocks are looked for; a search without fuel finds none.
unfoldable pub deadlock_of : ResourceLifecycleManager → String → Option (List String)
unfolding detect_deadlock
deadlock_of s resource_name =
    if s.policies.deadlock_detection_enabled
    then (elim (detect_deadlock s.resource_graph resource_name) [
      | none ↦ none
      | some found ↦ found
    ])
    else none

unfoldable pub acquire_resource :
    ℕ
    → ℕ
    → ResourceLifecycleManager
    → String
    → ℕ
    → ResourceAccess
    → Option ℕ
    → Effect AcquisitionResult
unfolding check_acquisition_feasibility calculate_wait_time deadlock_of grant new_lease
    duration_or_default
acquire_resource now later s resource_name task_id access_type lease_duration =
    let lease =
      new_lease now resource_name task_id access_type
        (duration_or_default s.policies lease_duration) in
    if not (check_acquisition_feasibility s.active_leases resource_name access_type)
    then (s, ok (calculate_wait_time now s.active_leases resource_name access_type))
    else (elim (deadlock_of s resource_name) [
      | some cycle ↦ (
        s,
        err (
            resource_conflict ("task_" <> task_text task_id) resource_name
              (deadlock_detected cycle)),
      )
      | none ↦ (grant later s lease, ok (acquired lease))
    ])
