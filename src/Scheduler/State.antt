-- ===== src/Scheduler/State.antt =====
-- src/scheduler.rs: `SchedulerState`, the tracker with the pending, executing and completed systems.
use tricti.Base.{String, Bool, not, ◌&&◌, List, [], ◌∷◌, ◌++◌, if◌then◌else◌, text_key, ok, ◌>>=◌}
use tricti.Base.HashSet
use tricti.Ast.{ResourceAccess}
use tricti.Scheduler.Error.{Outcome}
use tricti.Scheduler.Tracker
use tricti.Scheduler.Tracker.{ResourceTracker, is_empty}

-- `pending_systems` is a queue with its front first.
pub record SchedulerState : Type 0 where
  pub resource_tracker : ResourceTracker
  pub executing_systems : List String
  pub pending_systems : List String
  pub completed_systems : List String

unfoldable pub new : SchedulerState
unfolding Tracker.new
new = record {
  resource_tracker = Tracker.new;
  executing_systems = [];
  pending_systems = [];
  completed_systems = [];
}

unfoldable pub enqueue_system : SchedulerState → String → SchedulerState
unfolding HashSet.contains
enqueue_system s system_name =
    if not (HashSet.contains s.completed_systems system_name)
      && not (HashSet.contains s.executing_systems system_name)
    then record s { pending_systems = s.pending_systems ++ system_name ∷ [] }
    else s

unfoldable pub complete_system : SchedulerState → String → SchedulerState
unfolding HashSet.remove HashSet.insert
complete_system s system_name = record s {
  executing_systems = HashSet.remove system_name s.executing_systems;
  completed_systems = HashSet.insert system_name s.completed_systems;
}

unfoldable pub is_complete : SchedulerState → Bool
unfolding is_empty
is_complete s = is_empty s.executing_systems && is_empty s.pending_systems

unfoldable pub try_acquire_resource :
    SchedulerState → String → String → ResourceAccess → Outcome SchedulerState
unfolding Tracker.add_access
try_acquire_resource s resource system access = do
  tracker ← Tracker.add_access s.resource_tracker resource system access
  ok (record s { resource_tracker = tracker })

unfoldable pub release_resource : SchedulerState → String → String → ResourceAccess → SchedulerState
unfolding Tracker.remove_access
release_resource s resource system access = record s {
  resource_tracker = Tracker.remove_access s.resource_tracker resource system access;
}

unfoldable pub can_system_access_resource :
    SchedulerState → String → String → ResourceAccess → Outcome (Unit {0})
unfolding Tracker.can_access_resource
can_system_access_resource s resource system access =
    Tracker.can_access_resource s.resource_tracker resource system access
