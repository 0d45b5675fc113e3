-- ===== src/Lifecycle/Manager/Kept.antt =====
-- src/resource_lifecycle.rs: the invariant of `ResourceLifecycleManager` under each of its operations.
use tricti.Base.{
  ℕ, String, ◌<>◌, ◌≡◌, refl, inl, inr, Bool, true, false, Option, none, some, List, [], ◌∷◌, ok,
  err, text_key, number_key, Bool-cases, arith, ◌==◌,
}
use tricti.Base.HashMap
use tricti.Base.HashMap.{
  HasUniqueKeys, insert-HasUniqueKeys, remove-HasUniqueKeys, Entries, insert-Entries,
  remove-Entries,
}
use tricti.Ast.{ResourceAccess}
use tricti.Lifecycle.Timeouts.Queue.{
  InOrder, schedule_timeout-InOrder, get_expired_timeouts-InOrder,
}
use tricti.Base.HashSet
use tricti.Lifecycle.Graph.{set_at}
use tricti.Lifecycle.Graph.Mirror.{
  is_in, IsMirrored, is_in-or_insert, is_in-clear, is_in-map_values,
}
use tricti.Lifecycle.Manager.{
  ResourceLease, ResourceLifecyclePolicies, LifecycleEvent, lease_expiry, AcquisitionResult,
  acquired, deadlock_detected, resource_conflict, task_text, check_acquisition_feasibility,
  ReleaseReason, ResourceLifecycleManager, new,
}
use tricti.Lifecycle.Manager.Release.{
  Effect, forget, finish_release, remove_resource_dependencies, release_resource, release_each,
  release_all_task_resources, resources_of,
}
use tricti.Lifecycle.Manager.Acquire.{
  update_resource_dependencies, grant, new_lease, duration_or_default, deadlock_of,
  acquire_resource,
}
use tricti.Lifecycle.Manager.Expiry.{release_expired, process_expired_leases}
use tricti.Lifecycle.Manager.Owner.{
  either_end, without, release_missing, release_owned, release_foreign,
}

-- A resource is entered once, under the name that its lease has; the timeouts stand in the order of
-- their deadlines; the graph's two maps mirror each other, and no resource depends on another.
pub record IsKept (s : ResourceLifecycleManager) : Type 0 where
  pub unique : HasUniqueKeys s.active_leases
  pub named : Entries (λ name lease. lease.resource_name ≡ name) s.active_leases
  pub in_order : InOrder s.timeouts
  pub mirrored : IsMirrored s.resource_graph
  pub independent : (x y : String) → is_in s.resource_graph.dependencies x y ≡ false

pub new-IsKept : (policies : ResourceLifecyclePolicies) → IsKept (new policies)
unfolding new is_in set_at HashMap.get HashSet.contains
new-IsKept policies = record {
  unique = tt;
  named = tt;
  in_order = tt;
  mirrored = λ x y. refl;
  independent = λ x y. refl;
}

without-IsKept :
    (resource : String) (s : ResourceLifecycleManager) → IsKept s → IsKept (without resource s)
without-IsKept resource s k = record {
  unique = remove-HasUniqueKeys resource s.active_leases k.unique;
  named = remove-Entries _ resource s.active_leases k.named;
  in_order = k.in_order;
  mirrored = k.mirrored;
  independent = k.independent;
}

finish_release-IsKept :
    (s : ResourceLifecycleManager) (resource : String) (task : ℕ) (reason : ReleaseReason)
    → IsKept s
    → IsKept (finish_release s resource task reason)
unfolding finish_release remove_resource_dependencies forget
finish_release-IsKept s resource task reason k = record {
  unique = k.unique;
  named = k.named;
  in_order = (schedule_timeout-InOrder 0 s.timeouts resource task 0 k.in_order).1;
  mirrored = λ x y. ground (
    arith,
    k.mirrored x y,
    is_in-clear resource x y s.resource_graph.dependencies,
    is_in-map_values resource y x s.resource_graph.dependents,
  );
  independent = λ x y.
      ground (arith, k.independent x y, is_in-clear resource x y s.resource_graph.dependencies);
}

pub release_resource-IsKept :
    (s : ResourceLifecycleManager) (resource : String) (task : ℕ) (reason : ReleaseReason)
    → IsKept s
    → IsKept (release_resource s resource task reason).0
release_resource-IsKept s resource task reason k = found (HashMap.get resource s.active_leases) refl
  where
    found :
        (o : Option ResourceLease)
        → HashMap.get resource s.active_leases ≡ o
        → IsKept (release_resource s resource task reason).0
    found none e = rw (release_missing s resource task reason e) (without-IsKept resource s k)
    found (some lease) e = elim (Bool-cases (lease.task_id == task)) [
      | inl same ↦ rw (release_owned s resource task reason lease e same) (
          finish_release-IsKept (without resource s) resource task reason
            (without-IsKept resource s k))
      | inr other ↦
          rw (release_foreign s resource task reason lease e other) (without-IsKept resource s k)
    ]

grant-IsKept :
    (later now : ℕ) (s : ResourceLifecycleManager) (resource : String) (task : ℕ)
    (access : ResourceAccess) (duration : ℕ)
    → IsKept s
    → IsKept (grant later s (new_lease now resource task access duration))
unfolding grant new_lease update_resource_dependencies
grant-IsKept later now s resource task access duration k = record {
  unique = insert-HasUniqueKeys resource _ s.active_leases k.unique;
  named = insert-Entries _ resource _ s.active_leases refl k.named;
  in_order = (schedule_timeout-InOrder later s.timeouts resource task duration k.in_order).0;
  mirrored = λ x y. ground (
    arith,
    k.mirrored x y,
    is_in-or_insert resource x y s.resource_graph.dependencies,
    is_in-or_insert resource y x s.resource_graph.dependents,
  );
  independent = λ x y.
      ground (arith, k.independent x y, is_in-or_insert resource x y s.resource_graph.dependencies);
}

module _ (reason : ReleaseReason) (task : ℕ) where
  release_each-IsKept :
      (s : ResourceLifecycleManager) (names : List String)
      → IsKept s
      → IsKept (release_each s names task reason).0
  unfolding release_each
  release_each-IsKept s [] k = k
  release_each-IsKept s (name ∷ names) k =
      let kept = release_resource-IsKept s name task reason k in
      either_end IsKept _ (release_resource s name task reason).1 _ kept
        (λ _. release_each-IsKept (release_resource s name task reason).0 names kept)

  pub release_all_task_resources-IsKept :
      (s : ResourceLifecycleManager)
      → IsKept s
      → IsKept (release_all_task_resources s task reason).0
  unfolding release_all_task_resources
  release_all_task_resources-IsKept s k =
      let kept = release_each-IsKept s (resources_of task s.active_leases) k in
      either_end IsKept _ (release_each s (resources_of task s.active_leases) task reason).1 _ kept
        (λ _. kept)

release_expired-IsKept :
    (auto : Bool) (s : ResourceLifecycleManager) (expired : List (String × ℕ))
    (events : List LifecycleEvent)
    → IsKept s
    → IsKept (release_expired auto s expired events).0
unfolding release_expired
release_expired-IsKept auto s [] events k = k
release_expired-IsKept false s (e ∷ rest) events k = release_expired-IsKept false s rest events k
release_expired-IsKept true s ((name, task) ∷ rest) events k =
    let kept = release_resource-IsKept s name task lease_expiry k in
    either_end IsKept _ (release_resource s name task lease_expiry).1 _ kept
      (λ _. release_expired-IsKept true (release_resource s name task lease_expiry).0 rest _ kept)

pub process_expired_leases-IsKept :
    (now : ℕ) (s : ResourceLifecycleManager) → IsKept s → IsKept (process_expired_leases now s).0
unfolding process_expired_leases
process_expired_leases-IsKept now s k =
    release_expired-IsKept s.policies.auto_release_on_timeout _ _ [] (record {
      unique = k.unique;
      named = k.named;
      in_order = get_expired_timeouts-InOrder now s.timeouts k.in_order;
      mirrored = k.mirrored;
      independent = k.independent;
    })

-- An acquisition leaves the manager as it is, or grants the lease.
pub acquire_resource_either :
    (P : ResourceLifecycleManager → Type 0) (now later : ℕ) (s : ResourceLifecycleManager)
    (resource : String) (task : ℕ) (access : ResourceAccess) (duration : Option ℕ)
    → P s
    → P (
        grant later s
          (new_lease now resource task access (duration_or_default s.policies duration)))
    → P (acquire_resource now later s resource task access duration).0
unfolding acquire_resource
acquire_resource_either P now later s resource task access duration same granted =
    elim (Bool-cases (check_acquisition_feasibility s.active_leases resource access)) [
      | inl e ↦ rw e (cycle (deadlock_of s resource))
      | inr e ↦ rw e same
    ]
  where
    cycle :
        (o : Option (List String))
        → P
            (elim o as (λ _. Effect AcquisitionResult) [
              | some cycle ↦ (
                s,
                err (
                    resource_conflict
                      ("task_" <> task_text task)
                      resource
                      (deadlock_detected cycle)),
              )
              | none ↦ (
                grant later s
                    (new_lease now resource task access (duration_or_default s.policies duration)),
                ok (
                    acquired (
                      new_lease now resource task access
                        (duration_or_default s.policies duration))),
              )
            ]).0
    cycle none = granted
    cycle (some c) = same

pub acquire_resource-IsKept :
    (now later : ℕ) (s : ResourceLifecycleManager) (resource : String) (task : ℕ)
    (access : ResourceAccess) (duration : Option ℕ)
    → IsKept s
    → IsKept (acquire_resource now later s resource task access duration).0
acquire_resource-IsKept now later s resource task access duration k =
    acquire_resource_either IsKept now later s resource task access duration k
      (grant-IsKept later now s resource task access (duration_or_default s.policies duration) k)
