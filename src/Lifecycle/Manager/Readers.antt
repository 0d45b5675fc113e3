-- ===== src/Lifecycle/Manager/Readers.antt =====
-- src/resource_lifecycle.rs: `acquire_resource` followed by `release_resource`, on a free resource and
-- on one that is read already.
use tricti.Base.{
  ℕ, zero, suc, String, ◌≡◌, refl, sym, ◌∙◌, subst, ap, false, Option, none, some, List, [], ◌∷◌,
  retain, if◌then◌else◌, ◌==◌, ==_refl, ok, text_key, eq_iff, number_key, arith, Bool, Bool-cases,
  inl, inr,
}
use tricti.Base.HashMap
use tricti.Base.HashMap.{get-insert, get-remove}
use tricti.Ast.{ResourceAccess}
use tricti.Lifecycle.Timeouts.{LeaseTimeout, insert_at, schedule_timeout, is_for, cancel_timeout}
use tricti.Lifecycle.Manager.{
  ResourceLease, ReleaseReason, ResourceLifecycleManager, check_acquisition_feasibility,
}
use tricti.Lifecycle.Manager.Release.{
  finish_release, remove_resource_dependencies, release_resource,
}
use tricti.Lifecycle.Manager.Acquire.{grant, new_lease, duration_or_default, acquire_resource}
use tricti.Lifecycle.Manager.Owner.{without, release_owned, release_resource-active_leases}
use tricti.Lifecycle.Manager.Kept.{IsKept}
use tricti.Lifecycle.Manager.Grants.{granted}

retain-insert_at {ℓ} :
    {A : Type ℓ} (p : A → Bool) (i : ℕ) (x : A) (ys : List A)
    → p x ≡ false
    → retain p (insert_at i x ys) ≡ retain p ys
unfolding retain insert_at
retain-insert_at p zero x ys e = rw e refl
retain-insert_at p (suc i) x [] e = rw e refl
retain-insert_at p (suc i) x (y ∷ ys) e = ground (arith, retain-insert_at p i x ys e)

cancel_timeout-schedule_timeout :
    (now : ℕ) (ts : List LeaseTimeout) (name : String) (task duration : ℕ)
    → cancel_timeout (schedule_timeout now ts name task duration) name task
      ≡ cancel_timeout ts name task
unfolding cancel_timeout schedule_timeout is_for
cancel_timeout-schedule_timeout now ts name task duration =
    retain-insert_at _ _ _ ts (ground (arith, ==_refl name, ==_refl task))

module _ (now later : ℕ) (s : ResourceLifecycleManager) (resource : String) (task : ℕ)
    (access : ResourceAccess) (duration : Option ℕ) (reason : ReleaseReason) (k : IsKept s) where
  abbrev lease : ResourceLease
  lease = new_lease now resource task access (duration_or_default s.policies duration)

  -- The manager once the lease is granted.
  abbrev held_state : ResourceLifecycleManager
  held_state = grant later s lease

  get-held : HashMap.get resource held_state.active_leases ≡ some lease
  unfolding grant new_lease
  get-held = get-insert resource resource lease s.active_leases ∙ rw (==_refl resource) refl

  released :
      release_resource held_state resource task reason
      ≡ (finish_release (without resource held_state) resource task reason, ok tt)
  unfolding new_lease
  released = release_owned held_state resource task reason lease get-held (==_refl task)

  get-released :
      (other : String)
      → HashMap.get other (release_resource held_state resource task reason).0.active_leases
        ≡ (if resource == other then none else HashMap.get other s.active_leases)
  unfolding grant new_lease
  get-released other =
      ap (HashMap.get other) (release_resource-active_leases held_state resource task reason)
      ∙ get-remove resource other held_state.active_leases
      ∙ inserted
    where
      inserted :
          (if resource == other then none else HashMap.get other held_state.active_leases)
          ≡ (if resource == other then none else HashMap.get other s.active_leases)
      inserted = elim (Bool-cases (resource == other)) [
        | inl same ↦ rw same refl
        | inr differs ↦
            rw differs (get-insert resource other lease s.active_leases ∙ rw differs refl)
      ]

  released-timeouts :
      (release_resource held_state resource task reason).0.timeouts
      ≡ cancel_timeout s.timeouts resource task
  unfolding grant new_lease finish_release remove_resource_dependencies
  released-timeouts =
      ap (λ r. r.0.timeouts) released
      ∙ cancel_timeout-schedule_timeout later s.timeouts resource task
          (duration_or_default s.policies duration)

-- A resource without a lease is granted, and the release by the same task succeeds and restores every
-- lease; of the timeouts, those of this task for this resource are gone and all others stay.
pub release_resource-acquire_resource :
    (now later : ℕ) (s : ResourceLifecycleManager) (resource : String) (task : ℕ)
    (access : ResourceAccess) (duration : Option ℕ) (reason : ReleaseReason)
    → IsKept s
    → HashMap.get resource s.active_leases ≡ none
    → let s' = (acquire_resource now later s resource task access duration).0 in
      let r = release_resource s' resource task reason in
      (r.1 ≡ ok tt)
      × ((other : String) → HashMap.get other r.0.active_leases ≡ HashMap.get other s.active_leases)
      × (r.0.timeouts ≡ cancel_timeout s.timeouts resource task)
unfolding check_acquisition_feasibility
release_resource-acquire_resource now later s resource task access duration reason k free =
    subst
      (λ a.
        let r = release_resource a.0 resource task reason in
        (r.1 ≡ ok tt)
        × ((other : String)
            → HashMap.get other r.0.active_leases ≡ HashMap.get other s.active_leases)
        × (r.0.timeouts ≡ cancel_timeout s.timeouts resource task))
      (sym (
        granted now later s resource task access duration k
          (rw (free, check_acquisition_feasibility) refl)))
      (
        ap (λ r. r.1) (released now later s resource task access duration reason k),
        (λ other. elim (Bool-cases (resource == other)) [
          | inl same ↦
              get-released now later s resource task access duration reason k other
              ∙ rw same (
                  sym free
                  ∙ ap (λ n. HashMap.get n s.active_leases) ((eq_iff resource other).0 same))
          | inr differs ↦
              get-released now later s resource task access duration reason k other
              ∙ rw differs refl
        ]),
        released-timeouts now later s resource task access duration reason k,
      )
