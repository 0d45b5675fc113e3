-- ===== src/Lifecycle/Session.antt =====
-- src/resource_lifecycle.rs: histories of calls on the resource manager.
use tricti.Base.{ℕ, String, Option, List, [], ◌∷◌}
use tricti.Ast.{ResourceAccess}
use tricti.Lifecycle.Manager.{
  ReleaseReason, ResourceLifecyclePolicies, ResourceLifecycleManager, new,
}
use tricti.Lifecycle.Manager.Release.{release_resource, release_all_task_resources}
use tricti.Lifecycle.Manager.Acquire.{acquire_resource}
use tricti.Lifecycle.Manager.Expiry.{process_expired_leases}
use tricti.Lifecycle.Manager.Kept.{
  IsKept, new-IsKept, acquire_resource-IsKept, release_resource-IsKept,
  release_all_task_resources-IsKept, process_expired_leases-IsKept,
}
use tricti.Base.{◌≡◌, Bool, true, false, All, text_key}
use tricti.Base.HashMap
use tricti.Lifecycle.Manager.Guarded.{
  IsGuarded, acquire_resource-IsGuarded, release_resource-IsGuarded,
  release_all_task_resources-IsGuarded,
}

-- A call, with what the clock shows.
pub data Call : Type 0 where
  acquires :
      (now later : ℕ) (resource : String) (task : ℕ) (access : ResourceAccess) (duration : Option ℕ)
      → Call
  releases : (resource : String) (task : ℕ) (reason : ReleaseReason) → Call
  releases_all : (task : ℕ) (reason : ReleaseReason) → Call
  expires : (now : ℕ) → Call

unfoldable pub step : ResourceLifecycleManager → Call → ResourceLifecycleManager
step s (acquires now later resource task access duration) =
    (acquire_resource now later s resource task access duration).0
step s (releases resource task reason) = (release_resource s resource task reason).0
step s (releases_all task reason) = (release_all_task_resources s task reason).0
step s (expires now) = (process_expired_leases now s).0

unfoldable pub run : ResourceLifecycleManager → List Call → ResourceLifecycleManager
run s [] = s
run s (call ∷ calls) = run (step s call) calls

step-IsKept : (s : ResourceLifecycleManager) (call : Call) → IsKept s → IsKept (step s call)
unfolding step
step-IsKept s (acquires now later resource task access duration) k =
    acquire_resource-IsKept now later s resource task access duration k
step-IsKept s (releases resource task reason) k = release_resource-IsKept s resource task reason k
step-IsKept s (releases_all task reason) k = release_all_task_resources-IsKept reason task s k
step-IsKept s (expires now) k = process_expired_leases-IsKept now s k

run-IsKept : (s : ResourceLifecycleManager) (calls : List Call) → IsKept s → IsKept (run s calls)
unfolding run
run-IsKept s [] k = k
run-IsKept s (call ∷ calls) k = run-IsKept (step s call) calls (step-IsKept s call k)

-- After any history of calls on a new manager, whether they succeed or not: every resource has one
-- entry, under the name in its lease; the timeouts stand in the order of their deadlines; the two maps
-- of the dependency graph mirror each other; and no resource depends on another.
pub run-new-IsKept :
    (policies : ResourceLifecyclePolicies) (calls : List Call) → IsKept (run (new policies) calls)
run-new-IsKept policies calls = run-IsKept (new policies) calls (new-IsKept policies)

unfoldable pub is_expiry : Call → Bool
is_expiry (expires now) = true
is_expiry _ = false

step-IsGuarded :
    (s : ResourceLifecycleManager) (call : Call)
    → is_expiry call ≡ false
    → IsGuarded s
    → IsGuarded (step s call)
unfolding step is_expiry
step-IsGuarded s (acquires now later resource task access duration) calm g =
    acquire_resource-IsGuarded now later s resource task access duration g
step-IsGuarded s (releases resource task reason) calm g =
    release_resource-IsGuarded s resource task reason g
step-IsGuarded s (releases_all task reason) calm g =
    release_all_task_resources-IsGuarded task reason s g
step-IsGuarded s (expires now) calm g = cc

run-IsGuarded :
    (s : ResourceLifecycleManager) (calls : List Call)
    → All (λ call. is_expiry call ≡ false) calls
    → IsGuarded s
    → IsGuarded (run s calls)
unfolding run
run-IsGuarded s [] calm g = g
run-IsGuarded s (call ∷ calls) calm g =
    run-IsGuarded (step s call) calls calm.1 (step-IsGuarded s call calm.0 g)

-- After any history of acquisitions and releases of a new manager, whether they succeed or not, every
-- lease has a timeout of its task in the queue, as long as no expired leases are processed.
pub run-new-IsGuarded :
    (policies : ResourceLifecyclePolicies) (calls : List Call)
    → All (λ call. is_expiry call ≡ false) calls
    → IsGuarded (run (new policies) calls)
unfolding new HashMap.get
run-new-IsGuarded policies calls calm =
    run-IsGuarded (new policies) calls calm (λ name lease found. cc)
