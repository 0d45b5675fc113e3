-- ===== src/Lifecycle/Manager/Release.antt =====
-- src/resource_lifecycle.rs: `release_resource`, `release_all_task_resources`,
-- `remove_resource_dependencies`.
use tricti.Base.{
  ℕ, String, ◌<>◌, Bool, not, none, some, List, [], ◌∷◌, ◌++◌, map, retain, if◌then◌else◌, ◌==◌, ok,
  err, text_key, number_key,
}
use tricti.Base.HashMap.{HashMap}
use tricti.Base.HashMap
use tricti.Base.HashSet
use tricti.Lifecycle.Timeouts.{cancel_timeout}
use tricti.Lifecycle.Graph.{ResourceDependencyGraph}
use tricti.Lifecycle.Manager.{
  ResourceLease, ResourcePool, ReleaseReason, resource_released, text, resource_lifecycle_error,
  Outcome, ResourceLifecycleManager, task_text,
}

-- The resource keeps no dependency, and is nobody's dependent any more.
unfoldable pub forget : String → ResourceDependencyGraph → ResourceDependencyGraph
unfolding HashMap.modify HashMap.map_values HashSet.remove
forget resource_name g = record g {
  dependencies = HashMap.modify resource_name (λ _. []) g.dependencies;
  dependents = HashMap.map_values (HashSet.remove resource_name) g.dependents;
}

-- `pool.allocated_resources.retain(|_, holder| *holder != task_id)`
unfoldable pub free_allocations : ℕ → ResourcePool → ResourcePool
unfolding retain
free_allocations task_id pool = record pool {
  allocated_resources = retain (λ entry. not (entry.1 == task_id)) pool.allocated_resources;
}

unfoldable pub remove_resource_dependencies :
    ResourceLifecycleManager → String → ℕ → ResourceLifecycleManager
unfolding forget free_allocations HashMap.map_values
remove_resource_dependencies s resource_name task_id = record s {
  resource_graph = forget resource_name s.resource_graph;
  resource_pools = HashMap.map_values (free_allocations task_id) s.resource_pools;
}

-- What a method leaves behind, also where it answers an error.
abbrev pub Effect : Type 0 → Type 0
Effect A = ResourceLifecycleManager × Outcome A

unfoldable pub not_found : String → Outcome (Unit {0})
not_found resource_name = err (
    resource_lifecycle_error resource_name "release"
      (text "Resource not found or already released"))

unfoldable pub not_owner : {A : Type 0} → String → ℕ → Outcome A
unfolding task_text
not_owner resource_name task_id = err (
    resource_lifecycle_error resource_name "release"
      (text ("Task " <> task_text task_id <> " does not own resource")))

-- The rest of a release whose task owns the lease.
unfoldable pub finish_release :
    ResourceLifecycleManager → String → ℕ → ReleaseReason → ResourceLifecycleManager
unfolding remove_resource_dependencies cancel_timeout
finish_release s resource_name task_id reason =
    let s' =
      remove_resource_dependencies
        (record s { timeouts = cancel_timeout s.timeouts resource_name task_id }) resource_name
        task_id in
    record s' { emitted = s'.emitted ++ resource_released resource_name task_id reason ∷ [] }

-- The lease is taken out before its owner is looked at.
unfoldable pub release_resource :
    ResourceLifecycleManager → String → ℕ → ReleaseReason → Effect (Unit {0})
unfolding not_found not_owner finish_release HashMap.remove HashMap.get
release_resource s resource_name task_id reason =
    let s' = record s { active_leases = HashMap.remove resource_name s.active_leases } in
    elim (HashMap.get resource_name s.active_leases) [
      | none ↦ (s', not_found resource_name)
      | some lease ↦
          if not (lease.task_id == task_id)
          then (s', not_owner resource_name task_id)
          else (finish_release s' resource_name task_id reason, ok tt)
    ]

unfoldable pub holds : ℕ → String × ResourceLease → Bool
holds task_id entry = entry.1.task_id == task_id

-- The loop of `release_all_task_resources`, which stops at the first error.
unfoldable pub release_each :
    ResourceLifecycleManager → List String → ℕ → ReleaseReason → Effect (Unit {0})
unfolding release_resource
release_each s [] task_id reason = (s, ok tt)
release_each s (resource_name ∷ rest) task_id reason =
    let (s', outcome) = release_resource s resource_name task_id reason in
    elim outcome [ err e ↦ (s', err e) | ok _ ↦ release_each s' rest task_id reason ]

unfoldable pub resources_of : ℕ → HashMap String ResourceLease → List String
unfolding holds retain
resources_of task_id leases = map (λ entry. entry.1.resource_name) (retain (holds task_id) leases)

unfoldable pub release_all_task_resources :
    ResourceLifecycleManager → ℕ → ReleaseReason → Effect (List String)
unfolding release_each resources_of
release_all_task_resources s task_id reason =
    let resources_to_release = resources_of task_id s.active_leases in
    let (s', outcome) = release_each s resources_to_release task_id reason in
    elim outcome [ err e ↦ (s', err e) | ok _ ↦ (s', ok resources_to_release) ]
