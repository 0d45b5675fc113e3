-- ===== src/Scheduler/Run/Acquire.antt =====
-- src/scheduler.rs: `schedule_system` against `can_schedule_system`.
use tricti.Base.{
  ℕ, String, ◌≡◌, refl, ap, ◌∙◌, ◌↔◌, inl, inr, true, false, none, some, [], ◌∷◌, all, is_ok, ok,
  text_key, eq_iff, Bool-cases, Option-cases, arith,
}
use tricti.Base.HashMap.{HashMap, HasUniqueKeys}
use tricti.Base.HashMap
use tricti.Ast.{ResourceAccess}
use tricti.Scheduler.Tracker.{ResourceTracker, can_access_resource, record_access}
use tricti.Scheduler.Tracker.Frame.{can_access_resource-record_access, add_access-of_ok}
use tricti.Scheduler.Conflicts.{extract_resource_accesses}
use tricti.Scheduler.Conflicts.Compatible.{extract_resource_accesses-HasUniqueKeys}
use tricti.Scheduler.System.{SchedulableSystem, SystemScheduler}
use tricti.Scheduler.Run.{
  resources_free, can_schedule_system, acquire_all, start, touch, schedule_system,
}

module _ (name : String) where
  -- What was free stays free when the system takes another resource.
  resources_free-record_access :
      (t : ResourceTracker) (r : String) (a : ResourceAccess) (m : HashMap String ResourceAccess)
      → HashMap.get r m ≡ none
      → resources_free (record_access t r name a) name m ≡ resources_free t name m
  unfolding resources_free all HashMap.get
  resources_free-record_access t r a [] absent = refl
  resources_free-record_access t r a ((j, b) ∷ m) absent = ground (
    arith,
    can_access_resource-record_access t r j name a b,
    eq_iff j r,
    eq_iff r j,
    resources_free-record_access t r a m,
  )

  free_cons :
      (t : ResourceTracker) (r : String) (a : ResourceAccess) (m : HashMap String ResourceAccess)
      → resources_free t name ((r, a) ∷ m) ≡ true
      → (can_access_resource t r name a ≡ ok tt) × (resources_free t name m ≡ true)
  unfolding resources_free all is_ok
  free_cons t r a m h = ground arith

  acquire_all-ok :
      (t : ResourceTracker) (m : HashMap String ResourceAccess)
      → HasUniqueKeys m
      → resources_free t name m ≡ true
      → (acquire_all t name m).1 ≡ ok tt
  unfolding acquire_all
  acquire_all-ok t [] u free = refl
  acquire_all-ok t ((r, a) ∷ m) u free =
      let (granted, rest) = free_cons t r a m free in
      rw (add_access-of_ok t r name a granted, acquire_all)
        (acquire_all-ok (record_access t r name a) m u.1
          (resources_free-record_access t r a m u.0 ∙ rest))

can_schedule_system-resources_free :
    (s : SystemScheduler) (name : String) (system : SchedulableSystem)
    → HashMap.get name s.systems ≡ some system
    → can_schedule_system s name ≡ true
    → resources_free s.state.resource_tracker name (extract_resource_accesses system.definition)
      ≡ true
unfolding can_schedule_system
can_schedule_system-resources_free s name system e h = ground arith

pub can_schedule_system-registered :
    (s : SystemScheduler) (name : String)
    → can_schedule_system s name ≡ true
    → (system : SchedulableSystem) × (HashMap.get name s.systems ≡ some system)
unfolding can_schedule_system
can_schedule_system-registered s name h = elim (Option-cases (HashMap.get name s.systems)) [
  | inl e ↦ absurd (ground arith)
  | inr (system, e) ↦ (system, e)
]

-- The scheduler once the system has started, with all of its resources.
unfoldable pub started : ℕ → SystemScheduler → String → SchedulableSystem → SystemScheduler
started now s name system = record s {
  systems = HashMap.modify name (touch now) s.systems;
  state = record (start s.state name) {
    resource_tracker =
        (acquire_all s.state.resource_tracker name (extract_resource_accesses system.definition)).0;
  };
}

-- A system that can be scheduled starts, and acquires every resource.
pub schedule_system-started :
    (now : ℕ) (s : SystemScheduler) (name : String) (system : SchedulableSystem)
    → HashMap.get name s.systems ≡ some system
    → can_schedule_system s name ≡ true
    → schedule_system now s name ≡ (started now s name system, ok tt)
unfolding schedule_system started start
schedule_system-started now s name system e h =
    let free = can_schedule_system-resources_free s name system e h in
    let acquired =
      acquire_all-ok name s.state.resource_tracker (extract_resource_accesses system.definition)
        (extract_resource_accesses-HasUniqueKeys system.definition) free in
    rw (h, e, acquired)

-- A system that cannot be scheduled leaves the scheduler as it was.
pub schedule_system-refused :
    (now : ℕ) (s : SystemScheduler) (name : String)
    → can_schedule_system s name ≡ false
    → (schedule_system now s name).0 ≡ s
unfolding schedule_system
schedule_system-refused now s name h = rw h

-- Scheduling succeeds exactly where the system can be scheduled: once the check has passed, no
-- resource is refused halfway.
pub schedule_system_iff :
    (now : ℕ) (s : SystemScheduler) (name : String)
    → ((schedule_system now s name).1 ≡ ok tt) ↔ (can_schedule_system s name ≡ true)
unfolding schedule_system
schedule_system_iff now s name = (
  λ h. elim (Bool-cases (can_schedule_system s name)) [
    | inl e ↦ e
    | inr e ↦ absurd (ground (arith, e, h))
  ],
  λ e.
      (let (system, found) = can_schedule_system-registered s name e in
        ap (λ r. r.1) (schedule_system-started now s name system found e)),
)
