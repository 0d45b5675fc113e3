-- ===== src/Scheduler/Run/Safe.antt =====
-- src/scheduler.rs: the invariant of the executing systems under `schedule_system`, `complete_system`
-- and `enqueue_system`.
use tricti.Base.{
  ℕ, String, ◌≡◌, refl, sym, subst, ◌∙◌, ◌⊎◌, inl, inr, true, false, not, ◌&&◌, none, some, List,
  [], ◌∷◌, text_key, Bool-cases, Option-cases, Result-cases, arith, All, All-map, All-zip, All-all,
  All-any,
}
use tricti.Base.HashMap.{HashMap, get-modify}
use tricti.Base.HashMap
use tricti.Base.HashSet
use tricti.Base.HashSet.{contains-insert, All-insert, All-remove}
use tricti.Ast.{ResourceAccess}
use tricti.Scheduler.Tracker.{ResourceTracker, add_access, remove_access}
use tricti.Scheduler.Tracker.Shares.{IsExclusive}
use tricti.Scheduler.Tracker.Exclusive.{add_access-IsExclusive, remove_access-IsExclusive}
use tricti.Scheduler.Conflicts.{ConflictGraph, has_conflict}
use tricti.Scheduler.Conflicts.Graph.{IsSymmetric}
use tricti.Scheduler.State
use tricti.Scheduler.System.{SchedulableSystem, SystemScheduler}
use tricti.Scheduler.Dependencies.{dependencies_of}
use tricti.Scheduler.Run.{
  can_schedule_system, acquire_all, start, touch, schedule_system, release_all, complete_system,
}
use tricti.Scheduler.Run.Acquire.{
  can_schedule_system-registered, started, schedule_system-started, schedule_system-refused,
}

-- Two executing systems are one, or have no conflict in the graph.
abbrev pub Apart : ConflictGraph → String → String → Type 0
Apart g a b = (a ≡ b) ⊎ (has_conflict g a b ≡ false)

abbrev pub AllApart : ConflictGraph → List String → Type 0
AllApart g executing = All (λ a. All (Apart g a) executing) executing

-- Every dependency of the system has completed.
abbrev pub IsReady : HashMap String SchedulableSystem → List String → String → Type 0
IsReady systems completed name =
    All (λ d. HashSet.contains completed d ≡ true) (dependencies_of systems name)

pub record IsSafe (s : SystemScheduler) : Type 0 where
  pub symmetric : IsSymmetric s.conflict_graph
  pub exclusive : IsExclusive s.state.resource_tracker
  pub apart : AllApart s.conflict_graph s.state.executing_systems
  pub ready : All (IsReady s.systems s.state.completed_systems) s.state.executing_systems

acquire_all-IsExclusive :
    (t : ResourceTracker) (name : String) (m : HashMap String ResourceAccess)
    → IsExclusive t
    → IsExclusive (acquire_all t name m).0
unfolding acquire_all
acquire_all-IsExclusive t name [] x = x
acquire_all-IsExclusive t name ((r, a) ∷ m) x = elim (Result-cases (add_access t r name a)) [
  | inl (t', e) ↦
      rw (e, acquire_all)
        (acquire_all-IsExclusive t' name m (add_access-IsExclusive t t' r name a x e))
  | inr (_, e) ↦ rw (e, acquire_all) x
]

release_all-IsExclusive :
    (t : ResourceTracker) (name : String) (m : HashMap String ResourceAccess)
    → IsExclusive t
    → IsExclusive (release_all t name m)
unfolding release_all
release_all-IsExclusive t name [] x = x
release_all-IsExclusive t name ((r, a) ∷ m) x =
    release_all-IsExclusive (remove_access t r name a) name m
      (remove_access-IsExclusive t r name a x)

-- One more executing system, with no conflict with the others.
AllApart-insert :
    (g : ConflictGraph) (name : String) (executing : List String)
    → IsSymmetric g
    → All (λ e. has_conflict g name e ≡ false) executing
    → AllApart g executing
    → AllApart g (HashSet.insert name executing)
AllApart-insert g name ex symmetric free apart =
    All-insert (λ a. All (Apart g a) (HashSet.insert name ex)) name ex
      (All-insert (Apart g name) name ex (inl refl)
        (All-map (λ e. has_conflict g name e ≡ false) (Apart g name) (λ e n. inr n) ex free))
      (All-map (λ a. (has_conflict g name a ≡ false) × All (Apart g a) ex)
        (λ a. All (Apart g a) (HashSet.insert name ex))
        (λ a (n, old). All-insert (Apart g a) name ex (inr (symmetric a name ∙ n)) old) ex
        (All-zip (λ e. has_conflict g name e ≡ false) (λ a. All (Apart g a) ex) ex free apart))

AllApart-remove :
    (g : ConflictGraph) (name : String) (executing : List String)
    → AllApart g executing
    → AllApart g (HashSet.remove name executing)
AllApart-remove g name ex apart =
    All-remove (λ a. All (Apart g a) (HashSet.remove name ex)) name ex
      (All-map (λ a. All (Apart g a) ex) (λ a. All (Apart g a) (HashSet.remove name ex))
        (λ a h. All-remove (Apart g a) name ex h) ex apart)

dependencies_of-touch :
    (systems : HashMap String SchedulableSystem) (now : ℕ) (name e : String)
    → dependencies_of (HashMap.modify name (touch now) systems) e ≡ dependencies_of systems e
unfolding dependencies_of touch
dependencies_of-touch systems now name e = elim (Option-cases (HashMap.get e systems)) [
  | inl x ↦ ground (arith, x, get-modify name e (touch now) systems)
  | inr (s, x) ↦ ground (arith, x, get-modify name e (touch now) systems)
]

IsReady-touch :
    (systems : HashMap String SchedulableSystem) (completed : List String) (now : ℕ)
    (name e : String)
    → IsReady systems completed e
    → IsReady (HashMap.modify name (touch now) systems) completed e
IsReady-touch systems completed now name e =
    subst (All (λ d. HashSet.contains completed d ≡ true))
      (sym (dependencies_of-touch systems now name e))

IsReady-insert :
    (systems : HashMap String SchedulableSystem) (completed : List String) (name e : String)
    → IsReady systems completed e
    → IsReady systems (HashSet.insert name completed) e
IsReady-insert systems completed name e =
    All-map (λ d. HashSet.contains completed d ≡ true) _
      (λ d h. rw (contains-insert completed name d, h)) (dependencies_of systems e)

can_schedule_system-IsReady :
    (s : SystemScheduler) (name : String)
    → can_schedule_system s name ≡ true
    → IsReady s.systems s.state.completed_systems name
unfolding can_schedule_system dependencies_of
can_schedule_system-IsReady s name h = elim (Option-cases (HashMap.get name s.systems)) [
  | inl e ↦ absurd (ground (arith, h, e))
  | inr (system, e) ↦
      subst
        (λ o.
          All (λ d. HashSet.contains s.state.completed_systems d ≡ true)
            (elim o [ none ↦ [] | some x ↦ x.dependencies ]))
        (sym e)
        (All-all (λ d. HashSet.contains s.state.completed_systems d) system.dependencies
          (ground (arith, h, e)))
]

can_schedule_system-free :
    (s : SystemScheduler) (name : String)
    → can_schedule_system s name ≡ true
    → All (λ e. has_conflict s.conflict_graph name e ≡ false) s.state.executing_systems
unfolding can_schedule_system
can_schedule_system-free s name h =
    All-any (λ e. has_conflict s.conflict_graph name e) s.state.executing_systems (ground arith)

started-IsSafe :
    (now : ℕ) (s : SystemScheduler) (name : String) (system : SchedulableSystem)
    → can_schedule_system s name ≡ true
    → IsSafe s
    → IsSafe (started now s name system)
unfolding started start
started-IsSafe now s name system can safe = record {
  symmetric = safe.symmetric;
  exclusive = acquire_all-IsExclusive _ name _ safe.exclusive;
  apart =
      AllApart-insert s.conflict_graph name s.state.executing_systems safe.symmetric
        (can_schedule_system-free s name can) safe.apart;
  ready =
      All-insert _ name s.state.executing_systems
        (IsReady-touch s.systems s.state.completed_systems now name name
          (can_schedule_system-IsReady s name can))
        (All-map (IsReady s.systems s.state.completed_systems) _
          (IsReady-touch s.systems s.state.completed_systems now name) s.state.executing_systems
          safe.ready);
}

-- Scheduling keeps the scheduler safe, whether it succeeds or not.
pub schedule_system-IsSafe :
    (now : ℕ) (s : SystemScheduler) (name : String)
    → IsSafe s
    → IsSafe (schedule_system now s name).0
schedule_system-IsSafe now s name safe = elim (Bool-cases (can_schedule_system s name)) [
  | inl e ↦
      (let (system, found) = can_schedule_system-registered s name e in
        rw (schedule_system-started now s name system found e)
          (started-IsSafe now s name system e safe))
  | inr e ↦ rw (schedule_system-refused now s name e) safe
]

-- Completing a system keeps the scheduler safe.
pub complete_system-IsSafe :
    (s : SystemScheduler) (name : String) → IsSafe s → IsSafe (complete_system s name).0
unfolding complete_system State.complete_system
complete_system-IsSafe s name safe =
    elim (Bool-cases (HashSet.contains s.state.executing_systems name)) [
      | inr e ↦ rw e safe
      | inl e ↦ rw e (record {
        symmetric = safe.symmetric;
        exclusive = release_all-IsExclusive _ name _ safe.exclusive;
        apart = AllApart-remove s.conflict_graph name s.state.executing_systems safe.apart;
        ready = All-remove _ name s.state.executing_systems (
            All-map (IsReady s.systems s.state.completed_systems) _
              (IsReady-insert s.systems s.state.completed_systems name) s.state.executing_systems
              safe.ready);
      })
    ]

pub enqueue_system-IsSafe :
    (s : SystemScheduler) (name : String)
    → IsSafe s
    → IsSafe (record s { state = State.enqueue_system s.state name })
unfolding State.enqueue_system
enqueue_system-IsSafe s name safe =
    elim (Bool-cases (
      not (HashSet.contains s.state.completed_systems name)
      && not (HashSet.contains s.state.executing_systems name))) [
        | inl e ↦ rw e (record {
          symmetric = safe.symmetric;
          exclusive = safe.exclusive;
          apart = safe.apart;
          ready = safe.ready;
        })
        | inr e ↦ rw e safe
      ]
