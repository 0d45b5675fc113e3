-- ===== src/Lifecycle/Manager.antt =====
-- src/resource_lifecycle.rs: the state of `ResourceLifecycleManager`, its answers and its events, and
-- the parts that only read.
pub mod Release
pub mod Acquire
pub mod Expiry
pub mod Stats
pub mod Owner
pub mod Kept
pub mod Grants
pub mod Ends
pub mod Readers
pub mod Current
pub mod Guarded
pub mod ReleaseAll
use tricti.Base.{
  ℕ, zero, suc, ◌+◌, ◌-◌, ◌*◌, String, ◌<>◌, Bool, true, false, Option, none, some, List, [], ◌∷◌,
  ◌++◌, length, if◌then◌else◌, text_key,
}
use tricti.Base.Result.{Result}
use tricti.Base.HashMap.{HashMap}
use tricti.Base.HashMap
use tricti.Base.HashSet
use tricti.Ast.{ResourceAccess, immutable, mutable, owned}
use tricti.Scheduler.TypeId.{to_string}
use tricti.Scheduler.Validate.{access_name}
use tricti.Lifecycle.Timeouts.{LeaseTimeout}
use tricti.Lifecycle.Graph.{ResourceDependencyGraph, set_at}

pub record ResourceLease : Type 0 where
  pub resource_name : String
  pub task_id : ℕ
  pub access_type : ResourceAccess
  pub acquired_at : ℕ
  pub lease_duration : ℕ
  pub auto_release : Bool
  pub reference_count : ℕ
  pub dependencies : List String

pub data AllocationStrategy : Type 0 where
  first_available least_recently_used round_robin load_balanced : AllocationStrategy

pub record ResourcePool : Type 0 where
  pub pool_name : String
  pub resource_type : String
  pub available_resources : List String
  pub allocated_resources : HashMap String ℕ
  pub max_size : ℕ
  pub allocation_strategy : AllocationStrategy

pub record ResourceLifecyclePolicies : Type 0 where
  pub default_lease_duration : ℕ
  pub max_lease_duration : ℕ
  pub auto_release_on_timeout : Bool
  pub deadlock_detection_enabled : Bool
  pub resource_cleanup_interval : ℕ
  pub max_dependency_depth : ℕ

-- `Duration::from_secs`, in nanoseconds.
abbrev pub from_secs : ℕ → ℕ
from_secs n = n * 1000000000

abbrev pub default_policies : ResourceLifecyclePolicies
default_policies = record {
  default_lease_duration = from_secs 30;
  max_lease_duration = from_secs 300;
  auto_release_on_timeout = true;
  deadlock_detection_enabled = true;
  resource_cleanup_interval = from_secs 60;
  max_dependency_depth = 10;
}

pub data ReleaseReason : Type 0 where
  task_completed task_cancelled lease_expiry explicit_release deadlock_resolution system_shutdown :
      ReleaseReason

pub data LifecycleEvent : Type 0 where
  resource_acquired :
      (resource_name : String) (task_id : ℕ) (access_type : ResourceAccess) → LifecycleEvent
  resource_released :
      (resource_name : String) (task_id : ℕ) (reason : ReleaseReason) → LifecycleEvent
  lease_expired : (resource_name : String) (task_id : ℕ) → LifecycleEvent
  deadlock_found : (cycle : List String) (involved_tasks : List ℕ) → LifecycleEvent
  resource_created : (resource_name resource_type : String) → LifecycleEvent
  resource_destroyed : (resource_name reason : String) → LifecycleEvent

pub data AcquisitionResult : Type 0 where
  acquired : ResourceLease → AcquisitionResult
  wait_required :
      (estimated_wait_time : ℕ) (blocking_tasks : List ℕ) (reason : String) → AcquisitionResult
  denied : (reason : String) (retry_after : Option ℕ) → AcquisitionResult

-- A reason is its text; the one that prints a list keeps the list.
pub data Reason : Type 0 where
  text : String → Reason
  deadlock_detected : (cycle : List String) → Reason

-- The two variants of the runtime's errors that the manager builds.
pub data AsyncExecutionError : Type 0 where
  resource_conflict : (system resource : String) (reason : Reason) → AsyncExecutionError
  resource_lifecycle_error : (resource phase : String) (reason : Reason) → AsyncExecutionError

abbrev pub Outcome : Type 0 → Type 0
Outcome A = Result AsyncExecutionError A

-- `emitted` is what `emit_lifecycle_event` has printed.
pub record ResourceLifecycleManager : Type 0 where
  pub active_leases : HashMap String ResourceLease
  pub resource_graph : ResourceDependencyGraph
  pub timeouts : List LeaseTimeout
  pub resource_pools : HashMap String ResourcePool
  pub policies : ResourceLifecyclePolicies
  pub emitted : List LifecycleEvent

unfoldable pub new : ResourceLifecyclePolicies → ResourceLifecycleManager
new policies = record {
  active_leases = [];
  resource_graph = record { dependencies = []; dependents = []; levels = [] };
  timeouts = [];
  resource_pools = [];
  policies = policies;
  emitted = [];
}

-- A task as `{:?}` prints it.
unfoldable pub task_text : ℕ → String
task_text task_id = "TaskId(" <> to_string task_id <> ")"

-- The `match` on the access that is held and the access that is asked for.
unfoldable pub may_join : ResourceAccess → ResourceAccess → Bool
may_join immutable immutable = true
may_join immutable mutable = false
may_join mutable access = false
may_join owned access = false
may_join immutable owned = false

unfoldable pub check_acquisition_feasibility :
    HashMap String ResourceLease → String → ResourceAccess → Bool
unfolding may_join HashMap.get
check_acquisition_feasibility leases resource_name access_type =
    elim (HashMap.get resource_name leases) [
      | none ↦ true
      | some lease ↦ may_join lease.access_type access_type
    ]

unfoldable pub calculate_wait_time :
    ℕ → HashMap String ResourceLease → String → ResourceAccess → AcquisitionResult
unfolding HashMap.get
calculate_wait_time now leases resource_name access_type = elim (HashMap.get resource_name leases) [
  | none ↦
      denied
        ("Resource "
          <> resource_name
          <> " unavailable for "
          <> access_name access_type
          <> " access")
        (some (from_secs 1))
  | some lease ↦
      wait_required (lease.lease_duration - (now - lease.acquired_at)) (lease.task_id ∷ []) (
        "Resource "
        <> resource_name
        <> " is currently locked with "
        <> access_name lease.access_type
        <> " access (requested "
        <> access_name access_type
        <> ")")
]

-- The cycle that was found, or none, with the visited set; `none` is fuel that ran out.
abbrev pub Search : Type 0
Search = Option (Option (List String) × List String)

-- The loop of `find_cycle_to_task` over the dependencies; `find` is the recursive call.
unfoldable pub find_in :
    (String → List String → Search) → String → List String → List String → Search
unfolding HashSet.remove
find_in find current [] visited = some (none, HashSet.remove current visited)
find_in find current (dep ∷ deps) visited = elim (find dep visited) [
  | none ↦ none
  | some (none, visited') ↦ find_in find current deps visited'
  | some (some cycle, visited') ↦ some (some (cycle ++ current ∷ []), visited')
]

unfoldable pub find_cycle_to_task : ℕ → ResourceDependencyGraph → String → List String → Search
find_cycle_to_task zero g current visited = none
find_cycle_to_task (suc fuel) g current visited =
    let deeper =
      find_in (find_cycle_to_task fuel g) current (set_at current g.dependencies)
        (HashSet.insert current visited) in
    if HashSet.contains visited current then some (some (current ∷ []), visited) else deeper

-- The loop of `detect_deadlock`; every search starts with an empty visited set.
unfoldable pub first_cycle : ResourceDependencyGraph → List String → Option (Option (List String))
first_cycle g [] = some none
first_cycle g (dep ∷ deps) = elim (find_cycle_to_task (suc (length g.dependencies)) g dep []) [
  | none ↦ none
  | some (none, _) ↦ first_cycle g deps
  | some (some cycle, _) ↦ some (some cycle)
]

unfoldable pub detect_deadlock : ResourceDependencyGraph → String → Option (Option (List String))
unfolding first_cycle set_at
detect_deadlock g resource_name = first_cycle g (set_at resource_name g.dependencies)
