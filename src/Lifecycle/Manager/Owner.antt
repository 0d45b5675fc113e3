-- ===== src/Lifecycle/Manager/Owner.antt =====
-- src/resource_lifecycle.rs: who may release a lease, and what `release_resource` leaves.
use tricti.Base.{
  ℕ, String, ◌≡◌, refl, ◌↔◌, true, false, Option, none, some, inl, inr, if◌then◌else◌, ◌==◌, ok,
  err, text_key, number_key, Bool-cases, nat_beq_iff, arith,
}
use tricti.Base.HashMap
use tricti.Base.HashMap.{get-remove}
use tricti.Lifecycle.Manager.{Outcome, ResourceLease, ReleaseReason, ResourceLifecycleManager}
use tricti.Lifecycle.Manager.Release.{
  Effect, release_resource, finish_release, remove_resource_dependencies, not_found, not_owner,
}

-- The task holds the lease on the resource.
abbrev pub Holds : ResourceLifecycleManager → String → ℕ → Type 0
Holds s resource task =
    (lease : ResourceLease) × (HashMap.get resource s.active_leases ≡ some lease)
    × (lease.task_id ≡ task)

-- The manager without the lease on the resource, as a release leaves it at once.
abbrev pub without : String → ResourceLifecycleManager → ResourceLifecycleManager
without resource s = record s { active_leases = HashMap.remove resource s.active_leases }

module _ (s : ResourceLifecycleManager) (resource : String) (task : ℕ)
    (reason : ReleaseReason) where
  pub release_missing :
      HashMap.get resource s.active_leases ≡ none
      → release_resource s resource task reason ≡ (without resource s, not_found resource)
  unfolding release_resource
  release_missing e = rw (e, release_resource) refl

  pub release_owned :
      (lease : ResourceLease)
      → HashMap.get resource s.active_leases ≡ some lease
      → (lease.task_id == task) ≡ true
      → release_resource s resource task reason
        ≡ (finish_release (without resource s) resource task reason, ok tt)
  unfolding release_resource
  release_owned lease e same = rw (e, same, release_resource) refl

  pub release_foreign :
      (lease : ResourceLease)
      → HashMap.get resource s.active_leases ≡ some lease
      → (lease.task_id == task) ≡ false
      → release_resource s resource task reason ≡ (without resource s, not_owner resource task)
  unfolding release_resource
  release_foreign lease e other = rw (e, other, release_resource) refl

pub release_resource-active_leases :
    (s : ResourceLifecycleManager) (resource : String) (task : ℕ) (reason : ReleaseReason)
    → (release_resource s resource task reason).0.active_leases
      ≡ HashMap.remove resource s.active_leases
unfolding release_resource finish_release remove_resource_dependencies
release_resource-active_leases s resource task reason = ground arith

-- A release succeeds exactly where the task holds the lease. Yet whoever asks, and whether it succeeds
-- or not, the resource is left without a lease, while the leases on all other resources stay.
pub release_resource_iff :
    (s : ResourceLifecycleManager) (resource : String) (task : ℕ) (reason : ReleaseReason)
    → (((release_resource s resource task reason).1 ≡ ok tt) ↔ Holds s resource task)
      × ((other : String)
          → HashMap.get other (release_resource s resource task reason).0.active_leases
            ≡ (if resource == other then none else HashMap.get other s.active_leases))
unfolding not_found not_owner
release_resource_iff s resource task reason = (
  owner (HashMap.get resource s.active_leases) refl,
  λ other.
      rw (release_resource-active_leases s resource task reason)
        (get-remove resource other s.active_leases),
)
  where
    owner :
        (o : Option ResourceLease)
        → HashMap.get resource s.active_leases ≡ o
        → ((release_resource s resource task reason).1 ≡ ok tt) ↔ Holds s resource task
    owner none e = rw (release_missing s resource task reason e, e) (λ h. cc, λ (lease, h, t). cc)
    owner (some lease) e = elim (Bool-cases (lease.task_id == task)) [
      | inl same ↦
          rw (release_owned s resource task reason lease e same, e)
            (λ _. (lease, refl, (nat_beq_iff lease.task_id task).0 same), λ _. refl)
      | inr other ↦
          rw (release_foreign s resource task reason lease e other, e)
            (λ h. cc, λ (l, h, t). ground (arith, h, t, other))
    ]

-- Both ends of a chain of calls have a property of the manager.
pub either_end :
    (P : ResourceLifecycleManager → Type 0) {A B : Type 0} (s : ResourceLifecycleManager)
    (outcome : Outcome A) (next : A → Effect B)
    → P s
    → ((a : A) → P (next a).0)
    → P (elim outcome as (λ _. Effect B) [ err e ↦ (s, err e) | ok a ↦ next a ]).0
either_end P s (err e) next here more = here
either_end P s (ok a) next here more = more a
