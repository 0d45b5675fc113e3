-- ===== src/Tests/LifecycleTests.antt =====
-- The resource manager's theorems at concrete leases, and runs of its operations.
use tricti.Base.{
  ℕ, ◌⊎◌, String, ◌≡◌, refl, ◌↔◌, not, none, some, [], ◌∷◌, retain, if◌then◌else◌, ◌==◌, ok,
  text_key, number_key,
}
use tricti.Base.HashMap
use tricti.Ast.{immutable, mutable}
use tricti.Lifecycle.Timeouts.{LeaseTimeout}
use tricti.Lifecycle.Manager.{
  ResourceLease, ResourceLifecycleManager, default_policies, new, task_completed, explicit_release,
  acquired,
}
use tricti.Lifecycle.Manager.Release.{release_resource, release_all_task_resources, resources_of}
use tricti.Lifecycle.Manager.Acquire.{acquire_resource, grant, new_lease, duration_or_default}
use tricti.Lifecycle.Manager.Owner.{Holds, release_resource_iff}
use tricti.Lifecycle.Manager.Kept.{IsKept}
use tricti.Lifecycle.Manager.Grants.{MayJoin, MustWait, acquire_resource_lem}
use tricti.Lifecycle.Manager.Guarded.{IsGuarded}
use tricti.Lifecycle.Manager.ReleaseAll.{release_all_task_resources_lem}
use tricti.Lifecycle.Session.{step, run, acquires, run-new-IsKept, run-new-IsGuarded, is_expiry}

-- A task that reads the world, and one that writes the audio.
abbrev busy : ResourceLifecycleManager
busy =
    run (new default_policies)
      (acquires 1 2 "World" 1 immutable (some 10) ∷ acquires 3 4 "Audio" 2 mutable none ∷ [])

busy-IsKept : IsKept busy
busy-IsKept =
    run-new-IsKept default_policies
      (acquires 1 2 "World" 1 immutable (some 10) ∷ acquires 3 4 "Audio" 2 mutable none ∷ [])

run-new-IsKept_example : IsKept busy
run-new-IsKept_example =
    run-new-IsKept default_policies
      (acquires 1 2 "World" 1 immutable (some 10) ∷ acquires 3 4 "Audio" 2 mutable none ∷ [])

acquire_resource_lem_example :
    (acquire_resource 5 6 busy "World" 3 immutable none ≡ (
      grant 6 busy (new_lease 5 "World" 3 immutable (duration_or_default busy.policies none)),
      ok (acquired (new_lease 5 "World" 3 immutable (duration_or_default busy.policies none))),
    ))
      × MayJoin 5 6 busy "World" 3 immutable none busy-IsKept
    ⊎ MustWait 5 6 busy "World" 3 immutable none busy-IsKept
acquire_resource_lem_example = acquire_resource_lem 5 6 busy "World" 3 immutable none busy-IsKept

release_resource_iff_example :
    (((release_resource busy "World" 2 explicit_release).1 ≡ ok tt) ↔ Holds busy "World" 2)
    × ((other : String)
        → HashMap.get other (release_resource busy "World" 2 explicit_release).0.active_leases
          ≡ (if "World" == other then none else HashMap.get other busy.active_leases))
release_resource_iff_example = release_resource_iff busy "World" 2 explicit_release

release_all_task_resources_lem_example :
    ((release_all_task_resources busy 1 task_completed).1 ≡ ok (resources_of 1 busy.active_leases))
    × ((release_all_task_resources busy 1 task_completed).0.active_leases
        ≡ retain (λ e. not (e.1.task_id == 1)) busy.active_leases)
release_all_task_resources_lem_example =
    release_all_task_resources_lem busy 1 task_completed busy-IsKept

-- Runs are computed by these definitions.
busy-free : HashMap.get "Input" busy.active_leases ≡ none
unfolding run step acquire_resource new HashMap.get
busy-free = refl

world_lease : ResourceLease
world_lease = new_lease 1 "World" 1 immutable 10

run-new-IsGuarded_example : IsGuarded busy
unfolding is_expiry
run-new-IsGuarded_example =
    run-new-IsGuarded default_policies
      (acquires 1 2 "World" 1 immutable (some 10) ∷ acquires 3 4 "Audio" 2 mutable none ∷ [])
      (refl, (refl, tt))

abbrev entry : String → ℕ → ℕ → LeaseTimeout
entry name task at = record { resource_name = name; task_id = task; timeout_at = at }

-- A second reader has taken the first one's place, whose timeout is still in the queue.
abbrev crowded : ResourceLifecycleManager
crowded =
    run (new default_policies) (
      acquires 1 2 "World" 1 immutable (some 10) ∷ acquires 3 4 "World" 2 immutable (some 100) ∷ [])

second_lease : ResourceLease
second_lease = new_lease 3 "World" 2 immutable 100
