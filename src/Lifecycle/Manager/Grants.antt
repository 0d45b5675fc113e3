-- ===== src/Lifecycle/Manager/Grants.antt =====
-- src/resource_lifecycle.rs: when `acquire_resource` grants a lease, and what it answers otherwise.
use tricti.Base.{
  ℕ, ◌-◌, String, ◌<>◌, ◌≡◌, ◌≢◌, refl, ◌⊎◌, inl, inr, true, false, Option, none, some, List, [],
  ◌∷◌, ok, text_key, Bool-cases, arith, ==_refl,
}
use tricti.Base.HashMap
use tricti.Base.HashSet
use tricti.Ast.{ResourceAccess, immutable, mutable, owned}
use tricti.Lifecycle.Manager.Release.{Effect}
use tricti.Scheduler.Validate.{access_name}
use tricti.Lifecycle.Graph.{set_at}
use tricti.Lifecycle.Graph.Mirror.{is_in}
use tricti.Lifecycle.Manager.{
  AcquisitionResult, ResourceLease, ResourceLifecycleManager, may_join,
  check_acquisition_feasibility, calculate_wait_time, acquired, wait_required, first_cycle,
  detect_deadlock,
}
use tricti.Lifecycle.Manager.Acquire.{
  grant, new_lease, duration_or_default, deadlock_of, acquire_resource,
}
use tricti.Lifecycle.Manager.Kept.{IsKept}

empty_set : (set : List String) → ((y : String) → HashSet.contains set y ≡ false) → set ≡ []
unfolding HashSet.contains
empty_set [] h = refl
empty_set (x ∷ xs) h = ground (arith, h x, ==_refl x)

-- Without dependencies there is no cycle.
deadlock_of-none :
    (s : ResourceLifecycleManager) (resource : String) → IsKept s → deadlock_of s resource ≡ none
unfolding deadlock_of detect_deadlock first_cycle is_in
deadlock_of-none s resource k = elim (Bool-cases s.policies.deadlock_detection_enabled) [
  | inl e ↦
      rw
        (
          e,
          empty_set (set_at resource s.resource_graph.dependencies) (λ y. k.independent resource y),
        )
        refl
  | inr e ↦ rw e refl
]

both_read :
    (held access : ResourceAccess)
    → may_join held access ≡ true
    → (held ≡ immutable) × (access ≡ immutable)
unfolding may_join
both_read immutable immutable e = (refl, refl)
both_read immutable mutable e = cc
both_read immutable owned e = cc
both_read mutable access e = cc
both_read owned access e = cc

one_writes :
    (held access : ResourceAccess)
    → may_join held access ≡ false
    → (held ≢ immutable) ⊎ (access ≢ immutable)
unfolding may_join
one_writes immutable immutable e = cc
one_writes immutable mutable e = inr (λ h. cc)
one_writes immutable owned e = inr (λ h. cc)
one_writes mutable access e = inl (λ h. cc)
one_writes owned access e = inl (λ h. cc)

module _ (now later : ℕ) (s : ResourceLifecycleManager) (resource : String) (task : ℕ)
    (access : ResourceAccess) (duration : Option ℕ) (k : IsKept s) where
  abbrev asked : Effect AcquisitionResult
  asked = acquire_resource now later s resource task access duration

  abbrev lease : ResourceLease
  lease = new_lease now resource task access (duration_or_default s.policies duration)

  -- The resource is free, or its lease and the new one only read.
  abbrev pub MayJoin : Type 0
  MayJoin =
      (HashMap.get resource s.active_leases ≡ none)
      ⊎ ((held : ResourceLease) × (HashMap.get resource s.active_leases ≡ some held)
          × (held.access_type ≡ immutable)
          × (access ≡ immutable))

  abbrev pub MustWait : Type 0
  MustWait =
      (held : ResourceLease) × (HashMap.get resource s.active_leases ≡ some held)
      × ((held.access_type ≢ immutable) ⊎ (access ≢ immutable))
      × (asked ≡ (
        s,
        ok (
            wait_required (held.lease_duration - (now - held.acquired_at)) (held.task_id ∷ []) (
              "Resource "
              <> resource
              <> " is currently locked with "
              <> access_name held.access_type
              <> " access (requested "
              <> access_name access
              <> ")")),
      ))

  pub granted :
      check_acquisition_feasibility s.active_leases resource access ≡ true
      → asked ≡ (grant later s lease, ok (acquired lease))
  unfolding acquire_resource
  granted e = rw (e, deadlock_of-none s resource k) refl

  refused :
      check_acquisition_feasibility s.active_leases resource access ≡ false
      → asked ≡ (s, ok (calculate_wait_time now s.active_leases resource access))
  unfolding acquire_resource
  refused e = rw e refl

  -- An acquisition never fails and is never denied: it is granted where the resource has no lease or
  -- where both accesses are immutable, and otherwise it must wait for the task that holds the lease,
  -- for the rest of its duration, and changes nothing.
  pub acquire_resource_lem :
      (asked ≡ (grant later s lease, ok (acquired lease))) × MayJoin ⊎ MustWait
  unfolding check_acquisition_feasibility calculate_wait_time access_name
  acquire_resource_lem = answer (HashMap.get resource s.active_leases) refl
    where
      answer :
          (o : Option ResourceLease)
          → HashMap.get resource s.active_leases ≡ o
          → (asked ≡ (grant later s lease, ok (acquired lease))) × MayJoin ⊎ MustWait
      answer none e = inl (granted (rw (e, check_acquisition_feasibility) refl), inl e)
      answer (some held) e = elim (Bool-cases (may_join held.access_type access)) [
        | inl may ↦ inl (
          granted (rw (e, may, check_acquisition_feasibility) refl),
          (let (reads, read) = both_read held.access_type access may in inr (held, e, reads, read)),
        )
        | inr may_not ↦ inr (
          held,
          e,
          one_writes held.access_type access may_not,
          rw (refused (rw (e, may_not, check_acquisition_feasibility) refl), e, calculate_wait_time)
              refl,
        )
      ]
