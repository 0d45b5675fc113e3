-- ===== src/Lifecycle/Manager/Guarded.antt =====
-- src/resource_lifecycle.rs: the leases of `ResourceLifecycleManager` against its queue of timeouts.
use tricti.Base.{
  ◌+◌, ℕ, zero, suc, String, ◌≡◌, refl, ◌∙◌, Bool, true, false, ◌&&◌, ◌||◌, inl, inr, Option, none,
  some, List, [], ◌∷◌, retain, any, ◌==◌, text_key, number_key, Bool-cases, arith, eq_iff,
  nat_beq_iff,
}
use tricti.Base.HashMap
use tricti.Base.HashMap.{get-insert, get-remove}
use tricti.Ast.{ResourceAccess}
use tricti.Lifecycle.Timeouts.{LeaseTimeout, insert_at, schedule_timeout, is_for, cancel_timeout}
use tricti.Lifecycle.Manager.{ResourceLease, ReleaseReason, ResourceLifecycleManager}
use tricti.Lifecycle.Manager.Release.{
  finish_release, remove_resource_dependencies, release_resource,
}
use tricti.Lifecycle.Manager.Acquire.{grant, new_lease}
use tricti.Lifecycle.Manager.Release.{release_each, resources_of, release_all_task_resources}
use tricti.Lifecycle.Manager.Acquire.{duration_or_default, acquire_resource}
use tricti.Lifecycle.Manager.Kept.{acquire_resource_either}
use tricti.Lifecycle.Manager.Owner.{either_end}
use tricti.Lifecycle.Manager.Owner.{without, release_missing, release_owned, release_foreign}

abbrev pub is_lease : String → ℕ → String × ℕ → Bool
is_lease name task entry = entry.0 == name && entry.1 == task

-- Every lease has a timeout of its task in the queue, or stands in the list of what is being released.
abbrev pub IsCovered : List (String × ℕ) → ResourceLifecycleManager → Type 0
IsCovered expired s =
    (name : String) (lease : ResourceLease)
    → HashMap.get name s.active_leases ≡ some lease
    → (any (is_for name lease.task_id) s.timeouts || any (is_lease name lease.task_id) expired)
      ≡ true

-- Every lease has a timeout of its task in the queue.
abbrev pub IsGuarded : ResourceLifecycleManager → Type 0
IsGuarded s =
    (name : String) (lease : ResourceLease)
    → HashMap.get name s.active_leases ≡ some lease
    → any (is_for name lease.task_id) s.timeouts ≡ true

any-insert_at {ℓ} :
    {A : Type ℓ} (p : A → Bool) (i : ℕ) (x : A) (ys : List A)
    → any p (insert_at i x ys) ≡ (p x || any p ys)
unfolding any insert_at
any-insert_at p zero x ys = refl
any-insert_at p (suc i) x [] = refl
any-insert_at p (suc i) x (y ∷ ys) = ground (arith, any-insert_at p i x ys)

any-cancel :
    (name other : String) (task t : ℕ) (ts : List LeaseTimeout)
    → (name == other) ≡ false
    → any (is_for other t) (cancel_timeout ts name task) ≡ any (is_for other t) ts
unfolding any cancel_timeout retain is_for
any-cancel name other task t [] e = refl
any-cancel name other task t (u ∷ ts) e = ground (
  arith,
  any-cancel name other task t ts e,
  eq_iff u.resource_name name,
  eq_iff u.resource_name other,
  eq_iff name other,
)

any-schedule_timeout :
    (p : LeaseTimeout → Bool) (now : ℕ) (ts : List LeaseTimeout) (name : String) (task duration : ℕ)
    → any p (schedule_timeout now ts name task duration) ≡ (
        p (record { resource_name = name; task_id = task; timeout_at = now + duration })
        || any p ts)
unfolding schedule_timeout
any-schedule_timeout p now ts name task duration = any-insert_at p _ _ ts

grant-IsGuarded :
    (later now : ℕ) (s : ResourceLifecycleManager) (resource : String) (task : ℕ)
    (access : ResourceAccess) (duration : ℕ)
    → IsGuarded s
    → IsGuarded (grant later s (new_lease now resource task access duration))
unfolding grant new_lease is_for
grant-IsGuarded later now s resource task access duration g name lease h =
    any-schedule_timeout (is_for name lease.task_id) later s.timeouts resource task duration
    ∙ elim (Bool-cases (resource == name)) [
      | inl same ↦ ground (
        arith,
        h,
        get-insert resource name (new_lease now resource task access duration) s.active_leases,
        same,
        nat_beq_iff task lease.task_id,
      )
      | inr other ↦ ground (
        arith,
        h,
        get-insert resource name (new_lease now resource task access duration) s.active_leases,
        g name lease,
        other,
      )
    ]

without-IsCovered :
    (expired : List (String × ℕ)) (s : ResourceLifecycleManager) (resource : String)
    → IsCovered expired s
    → IsCovered expired (without resource s)
without-IsCovered expired s resource g name lease h =
    ground (arith, h, get-remove resource name s.active_leases, g name lease)

-- A release that its task may make, whatever stands in front of the list.
finish_release-IsCovered :
    (expired : List (String × ℕ)) (s : ResourceLifecycleManager) (resource : String)
    (task holder : ℕ) (reason : ReleaseReason)
    → IsCovered ((resource, holder) ∷ expired) s
    → IsCovered expired (finish_release (without resource s) resource task reason)
unfolding finish_release remove_resource_dependencies any
finish_release-IsCovered expired s resource task holder reason g name lease h =
    elim (Bool-cases (resource == name)) [
      | inl same ↦ absurd (ground (arith, h, get-remove resource name s.active_leases, same))
      | inr other ↦ ground (
        arith,
        h,
        get-remove resource name s.active_leases,
        g name lease,
        other,
        any-cancel resource name task lease.task_id s.timeouts other,
      )
    ]

-- The lease on the resource, whoever asks for its release, is gone, and the others stay covered.
pub release_resource-IsCovered :
    (expired : List (String × ℕ)) (s : ResourceLifecycleManager) (resource : String) (task : ℕ)
    (reason : ReleaseReason)
    → IsCovered ((resource, task) ∷ expired) s
    → IsCovered expired (release_resource s resource task reason).0
unfolding any
release_resource-IsCovered expired s resource task reason g =
    found (HashMap.get resource s.active_leases) refl
  where
    gone : IsCovered expired (without resource s)
    gone name lease h = elim (Bool-cases (resource == name)) [
      | inl same ↦ absurd (ground (arith, h, get-remove resource name s.active_leases, same))
      | inr other ↦ ground (arith, h, get-remove resource name s.active_leases, g name lease, other)
    ]

    found :
        (o : Option ResourceLease)
        → HashMap.get resource s.active_leases ≡ o
        → IsCovered expired (release_resource s resource task reason).0
    found none e = rw (release_missing s resource task reason e) gone
    found (some lease) e = elim (Bool-cases (lease.task_id == task)) [
      | inl same ↦
          rw (release_owned s resource task reason lease e same)
            (finish_release-IsCovered expired s resource task task reason g)
      | inr other ↦ rw (release_foreign s resource task reason lease e other) gone
    ]

IsCovered-cons :
    (expired : List (String × ℕ)) (entry : String × ℕ) (s : ResourceLifecycleManager)
    → IsCovered expired s
    → IsCovered (entry ∷ expired) s
unfolding any
IsCovered-cons expired entry s g name lease h = ground (arith, g name lease h)

IsGuarded-IsCovered : (s : ResourceLifecycleManager) → IsGuarded s → IsCovered [] s
IsGuarded-IsCovered s g name lease h = ground (arith, g name lease h)

pub IsCovered-IsGuarded : (s : ResourceLifecycleManager) → IsCovered [] s → IsGuarded s
unfolding any
IsCovered-IsGuarded s g name lease h = ground (arith, g name lease h)

-- A grant and a release, whether the release succeeds or not, keep a timeout for every lease.
pub release_resource-IsGuarded :
    (s : ResourceLifecycleManager) (resource : String) (task : ℕ) (reason : ReleaseReason)
    → IsGuarded s
    → IsGuarded (release_resource s resource task reason).0
release_resource-IsGuarded s resource task reason g =
    IsCovered-IsGuarded (release_resource s resource task reason).0 (
      release_resource-IsCovered [] s resource task reason
        (IsCovered-cons [] (resource, task) s (IsGuarded-IsCovered s g)))

pub acquire_resource-IsGuarded :
    (now later : ℕ) (s : ResourceLifecycleManager) (resource : String) (task : ℕ)
    (access : ResourceAccess) (duration : Option ℕ)
    → IsGuarded s
    → IsGuarded (acquire_resource now later s resource task access duration).0
acquire_resource-IsGuarded now later s resource task access duration g =
    acquire_resource_either IsGuarded now later s resource task access duration g
      (grant-IsGuarded later now s resource task access (duration_or_default s.policies duration) g)

module _ (task : ℕ) (reason : ReleaseReason) where
  release_each-IsGuarded :
      (s : ResourceLifecycleManager) (names : List String)
      → IsGuarded s
      → IsGuarded (release_each s names task reason).0
  unfolding release_each
  release_each-IsGuarded s [] g = g
  release_each-IsGuarded s (name ∷ names) g =
      let after = release_resource-IsGuarded s name task reason g in
      either_end IsGuarded (release_resource s name task reason).0
        (release_resource s name task reason).1 _ after
        (λ _. release_each-IsGuarded (release_resource s name task reason).0 names after)

  pub release_all_task_resources-IsGuarded :
      (s : ResourceLifecycleManager)
      → IsGuarded s
      → IsGuarded (release_all_task_resources s task reason).0
  unfolding release_all_task_resources
  release_all_task_resources-IsGuarded s g =
      let after = release_each-IsGuarded s (resources_of task s.active_leases) g in
      either_end IsGuarded (release_each s (resources_of task s.active_leases) task reason).0
        (release_each s (resources_of task s.active_leases) task reason).1 _ after (λ _. after)
