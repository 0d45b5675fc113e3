-- ===== src/Scheduler/Run.antt =====
-- src/scheduler.rs: `can_schedule_system`, `schedule_system`, `complete_system`.
pub mod Acquire
pub mod Safe
use tricti.Base.{
  ℕ, String, ◌<>◌, Bool, false, not, ◌&&◌, none, some, [], ◌∷◌, all, any, retain, if◌then◌else◌,
  ◌==◌, ok, err, is_ok, text_key,
}
use tricti.Base.HashMap.{HashMap}
use tricti.Base.HashMap
use tricti.Base.HashSet
use tricti.Ast.{ResourceAccess}
use tricti.Scheduler.Error.{scheduling_failure, Outcome}
use tricti.Scheduler.Tracker.{ResourceTracker, can_access_resource, add_access, remove_access}
use tricti.Scheduler.Conflicts.{extract_resource_accesses, has_conflict}
use tricti.Scheduler.State
use tricti.Scheduler.State.{SchedulerState}
use tricti.Scheduler.System.{SchedulableSystem, SystemScheduler}
use tricti.Scheduler.Dependencies.{Effect}

-- Every resource of the system may be accessed now.
unfoldable pub resources_free : ResourceTracker → String → HashMap String ResourceAccess → Bool
resources_free t name accesses =
    all (λ entry. is_ok (can_access_resource t entry.0 name entry.1)) accesses

unfoldable pub can_schedule_system : SystemScheduler → String → Bool
can_schedule_system s name = elim (HashMap.get name s.systems) [
  | none ↦ false
  | some system ↦
      all (λ dep. HashSet.contains s.state.completed_systems dep) system.dependencies
      && not (any (λ e. has_conflict s.conflict_graph name e) s.state.executing_systems)
      && resources_free s.state.resource_tracker name (extract_resource_accesses system.definition)
]

-- The loop that acquires; at an error, what was acquired before stays acquired.
unfoldable pub acquire_all :
    ResourceTracker → String → HashMap String ResourceAccess → ResourceTracker × Outcome (Unit {0})
acquire_all t name [] = (t, ok tt)
acquire_all t name ((resource, access) ∷ rest) = elim (add_access t resource name access) [
  | err e ↦ (t, err e)
  | ok t' ↦ acquire_all t' name rest
]

-- The system leaves the queue and is marked as executing.
unfoldable pub start : SchedulerState → String → SchedulerState
start state name = record state {
  pending_systems = retain (λ p. not (p == name)) state.pending_systems;
  executing_systems = HashSet.insert name state.executing_systems;
}

unfoldable pub touch : ℕ → SchedulableSystem → SchedulableSystem
touch now system = record system { last_execution_time = some now }

-- `now` is what the clock shows, in milliseconds since the epoch.
unfoldable pub schedule_system : ℕ → SystemScheduler → String → Effect
schedule_system now s name =
    if not (can_schedule_system s name)
    then (
      s,
      err (scheduling_failure ("System '" <> name <> "' cannot be scheduled due to conflicts")),
    )
    else (elim (HashMap.get name s.systems) [
      | none ↦ (
        record s { state = start s.state name },
        err (scheduling_failure ("System '" <> name <> "' not found")),
      )
      | some system ↦
          let started = start s.state name in
          let (tracker, outcome) =
            acquire_all started.resource_tracker name
              (extract_resource_accesses system.definition) in
          (
            record s {
              systems = HashMap.modify name (touch now) s.systems;
              state = record started { resource_tracker = tracker };
            },
            outcome,
          )
    ])

unfoldable pub release_all :
    ResourceTracker → String → HashMap String ResourceAccess → ResourceTracker
release_all t name [] = t
release_all t name ((resource, access) ∷ rest) =
    release_all (remove_access t resource name access) name rest

-- The accesses to release; a system that is no longer registered releases none.
unfoldable pub accesses_of :
    HashMap String SchedulableSystem → String → HashMap String ResourceAccess
accesses_of systems name = elim (HashMap.get name systems) [
  | none ↦ []
  | some system ↦ extract_resource_accesses system.definition
]

unfoldable pub complete_system : SystemScheduler → String → Effect
complete_system s name =
    if not (HashSet.contains s.state.executing_systems name)
    then (s, err (scheduling_failure ("System '" <> name <> "' is not currently executing")))
    else (
      record s {
        state =
            State.complete_system
              (record s.state {
                resource_tracker =
                    release_all s.state.resource_tracker name (accesses_of s.systems name);
              })
              name;
      },
      ok tt,
    )
