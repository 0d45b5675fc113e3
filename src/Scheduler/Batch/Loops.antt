-- ===== src/Scheduler/Batch/Loops.antt =====
-- src/scheduler.rs: the loops of `schedule_batch` under the invariant of `schedule_system`.
use tricti.Base.{
  sym, subst, ℕ, zero, suc, ◌+◌, ◌-◌, ◌≤◌, ◌<◌, min, String, ◌≡◌, ◌↔◌, ◌∙◌, refl, inl, inr, true,
  Option, none, some, List, [], ◌∷◌, ◌++◌, length, ok, text_key, Bool-cases, Option-cases,
  Result-cases, ==_refl, arith, All, All-map, All-append, ltb, nat_beq,
}
use tricti.Base.HashSet
use tricti.Base.HashSet.{contains-insert, length-insert-le}
use tricti.Scheduler.System.{SchedulingStrategy, work_stealing, SchedulableSystem, SystemScheduler}
use tricti.Scheduler.Run.{can_schedule_system, start, schedule_system}
use tricti.Scheduler.Run.Acquire.{
  can_schedule_system-registered, started, schedule_system-started, schedule_system-refused,
  schedule_system_iff,
}
use tricti.Scheduler.Run.Safe.{IsSafe, schedule_system-IsSafe}
use tricti.Scheduler.Batch.{
  get_schedulable_systems, remove_at, steal_loop, order_loop, batch_loop, schedule_batch,
}

-- One round: what `schedule_system` does to the executing systems.
record Round (s s' : SystemScheduler) : Type 0 where
  capacity : s'.max_concurrent_systems ≡ s.max_concurrent_systems
  grows : length s'.state.executing_systems ≤ length s.state.executing_systems + 1
  keeps :
      (n : String)
      → HashSet.contains s.state.executing_systems n ≡ true
      → HashSet.contains s'.state.executing_systems n ≡ true

started-Round :
    (now : ℕ) (s : SystemScheduler) (name : String) (system : SchedulableSystem)
    → Round s (started now s name system)
unfolding started start
started-Round now s name system = record {
  capacity = refl;
  grows = length-insert-le name s.state.executing_systems;
  keeps = λ n h. rw (contains-insert s.state.executing_systems name n, h);
}

schedule_system-Round :
    (now : ℕ) (s : SystemScheduler) (name : String) → Round s (schedule_system now s name).0
schedule_system-Round now s name = elim (Bool-cases (can_schedule_system s name)) [
  | inl e ↦
      (let (system, found) = can_schedule_system-registered s name e in
        rw (schedule_system-started now s name system found e) (started-Round now s name system))
  | inr e ↦
      rw (schedule_system-refused now s name e)
        (record { capacity = refl; grows = omega arith; keeps = λ n h. h })
]

started-executing :
    (now : ℕ) (s : SystemScheduler) (name : String) (system : SchedulableSystem)
    → HashSet.contains (started now s name system).state.executing_systems name ≡ true
unfolding started start
started-executing now s name system =
    ground (arith, contains-insert s.state.executing_systems name name, ==_refl name)

-- A system that was scheduled executes.
schedule_system-executing :
    (now : ℕ) (s : SystemScheduler) (name : String)
    → (schedule_system now s name).1 ≡ ok tt
    → HashSet.contains (schedule_system now s name).0.state.executing_systems name ≡ true
schedule_system-executing now s name h =
    let can = (schedule_system_iff now s name).0 h in
    let (system, found) = can_schedule_system-registered s name can in
    rw (schedule_system-started now s name system found can) (started-executing now s name system)

abbrev Running : SystemScheduler → String → Type 0
Running s n = HashSet.contains s.state.executing_systems n ≡ true

-- With `rounds` left, the loop cannot exceed the maximum.
record Within (bound rounds : ℕ) (s : SystemScheduler) (scheduled : List String) : Type 0 where
  safe : IsSafe s
  capacity : s.max_concurrent_systems ≡ bound
  room : length s.state.executing_systems + rounds ≤ bound
  running : All (Running s) scheduled

module _ (bound : ℕ) where
  Within-fewer :
      {rounds fewer : ℕ} {s : SystemScheduler} {scheduled : List String}
      → Within bound rounds s scheduled
      → fewer ≤ rounds
      → Within bound fewer s scheduled
  Within-fewer w h = record {
    safe = w.safe;
    capacity = w.capacity;
    room = omega (arith, w.room);
    running = w.running;
  }

  Within-round :
      (now rounds : ℕ) (s : SystemScheduler) (name : String) (scheduled : List String)
      → Within bound (suc rounds) s scheduled
      → Within bound rounds (schedule_system now s name).0 scheduled
  Within-round now rounds s name scheduled w =
      let round = schedule_system-Round now s name in
      record {
        safe = schedule_system-IsSafe now s name w.safe;
        capacity = round.capacity ∙ w.capacity;
        room = omega (arith, round.grows, w.room);
        running = All-map (Running s) _ round.keeps scheduled w.running;
      }

  Within-scheduled :
      (now rounds : ℕ) (s : SystemScheduler) (name : String) (scheduled : List String)
      → Within bound (suc rounds) s scheduled
      → (schedule_system now s name).1 ≡ ok tt
      → Within bound rounds (schedule_system now s name).0 (scheduled ++ name ∷ [])
  Within-scheduled now rounds s name scheduled w h =
      let w' = Within-round now rounds s name scheduled w in
      record {
        safe = w'.safe;
        capacity = w'.capacity;
        room = w'.room;
        running =
            All-append _ scheduled (name ∷ []) w'.running
              (schedule_system-executing now s name h, tt);
      }

  abbrev Done : SystemScheduler × List String → Type 0
  Done r = Within bound 0 r.0 r.1

  order_loop-Done :
      (clock : ℕ → ℕ) (rounds i : ℕ) (s : SystemScheduler) (schedulable scheduled : List String)
      → Within bound rounds s scheduled
      → Done (order_loop clock rounds i s schedulable scheduled)
  unfolding order_loop
  order_loop-Done clock zero i s schedulable scheduled w = w
  order_loop-Done clock (suc rounds) i s [] scheduled w = Within-fewer w (omega arith)
  order_loop-Done clock (suc rounds) i s (name ∷ rest) scheduled w =
      let s' = (schedule_system (clock i) s name).0 in
      elim (Result-cases (schedule_system (clock i) s name).1) [
        | inl (tt, e) ↦
            rw (e, order_loop)
              (order_loop-Done clock rounds (suc i) s' rest (scheduled ++ name ∷ [])
                (Within-scheduled (clock i) rounds s name scheduled w e))
        | inr (_, e) ↦
            rw (e, order_loop)
              (order_loop-Done clock rounds (suc i) s' rest scheduled
                (Within-round (clock i) rounds s name scheduled w))
      ]

  steal_loop-Done :
      (clock : ℕ → ℕ) (rounds i : ℕ) (s : SystemScheduler) (schedulable scheduled : List String)
      → Within bound rounds s scheduled
      → Done (steal_loop clock rounds i s schedulable scheduled)
  unfolding steal_loop
  steal_loop-Done clock zero i s schedulable scheduled w = w
  steal_loop-Done clock (suc rounds) i s schedulable scheduled w =
      elim (Option-cases (remove_at i schedulable)) [
        | inl e ↦
            rw (e, steal_loop)
              (steal_loop-Done clock rounds (suc i) s schedulable scheduled
                (Within-fewer w (omega arith)))
        | inr ((name, rest), e) ↦
            let s' = (schedule_system (clock i) s name).0 in
            elim (Result-cases (schedule_system (clock i) s name).1) [
              | inl (tt, x) ↦
                  rw (e, steal_loop, x)
                    (steal_loop-Done clock rounds (suc i) s' (get_schedulable_systems s')
                      (scheduled ++ name ∷ [])
                      (Within-scheduled (clock i) rounds s name scheduled w x))
              | inr (_, x) ↦
                  rw (e, steal_loop, x)
                    (steal_loop-Done clock rounds (suc i) s' rest scheduled
                      (Within-round (clock i) rounds s name scheduled w))
            ]
      ]

  batch_loop-Done :
      (clock : ℕ → ℕ) (strategy : SchedulingStrategy) (rounds : ℕ) (s : SystemScheduler)
      (schedulable : List String)
      → Within bound rounds s []
      → Done (batch_loop clock strategy rounds s schedulable)
  unfolding batch_loop
  batch_loop-Done clock work_stealing rounds s l w =
      steal_loop-Done clock (min rounds (length l)) 0 s l [] (Within-fewer w (omega arith))
  batch_loop-Done clock _ rounds s l w =
      order_loop-Done clock (min rounds (length l)) 0 s l [] (Within-fewer w (omega arith))

-- What a batch leaves and reports.
abbrev pub BatchResult : Option (SystemScheduler × List String) → Type 0
BatchResult none = ⊥
BatchResult (some (s, scheduled)) =
    IsSafe s
    × (length s.state.executing_systems ≤ s.max_concurrent_systems)
    × All (λ n. HashSet.contains s.state.executing_systems n ≡ true) scheduled

Done-result : {bound : ℕ} (r : SystemScheduler × List String) → Done bound r → BatchResult (some r)
Done-result (s, scheduled) w = (w.safe, omega (arith, w.room, w.capacity), w.running)

pub schedule_batch-BatchResult :
    (clock : ℕ → ℕ) (s : SystemScheduler)
    → IsSafe s
    → length s.state.executing_systems ≤ s.max_concurrent_systems
    → BatchResult (schedule_batch clock s)
unfolding schedule_batch
schedule_batch-BatchResult clock s safe fits =
    let executing = length s.state.executing_systems in
    let left = s.max_concurrent_systems - executing in
    elim (Bool-cases (ltb s.max_concurrent_systems executing)) [
      | inl over ↦ absurd (ground arith)
      | inr e ↦ elim (Bool-cases (nat_beq left 0)) [
        | inl full ↦ rw (e, schedule_batch, full) (safe, fits, tt)
        | inr more ↦
            rw (e, schedule_batch, more)
              (Done-result _ (
                batch_loop-Done s.max_concurrent_systems clock s.strategy left s
                  (get_schedulable_systems s)
                  (record { safe = safe; capacity = refl; room = omega arith; running = tt })))
      ]
    ]

-- A batch panics exactly where more systems execute than the maximum.
pub schedule_batch_panics_iff :
    (clock : ℕ → ℕ) (s : SystemScheduler)
    → (schedule_batch clock s ≡ none)
      ↔ (s.max_concurrent_systems < length s.state.executing_systems)
unfolding schedule_batch
schedule_batch_panics_iff clock s = ground arith

-- The scheduler after a batch, or as it was where the batch panics.
pub schedule_batch-IsSafe :
    (clock : ℕ → ℕ) (s : SystemScheduler)
    → IsSafe s
    → IsSafe (elim (schedule_batch clock s) [ none ↦ s | some (s', _) ↦ s' ])
schedule_batch-IsSafe clock s safe =
    elim (Bool-cases (ltb s.max_concurrent_systems (length s.state.executing_systems))) [
      | inl over ↦
          subst (λ r. IsSafe (elim r [ none ↦ s | some (s', _) ↦ s' ]))
            (sym ((schedule_batch_panics_iff clock s).1 (ground arith))) safe
      | inr fits ↦
          kept (schedule_batch clock s) (schedule_batch-BatchResult clock s safe (ground arith))
    ]
  where
    kept :
        (r : Option (SystemScheduler × List String))
        → BatchResult r
        → IsSafe (elim r [ none ↦ s | some (s', _) ↦ s' ])
    kept none h = absurd h
    kept (some (s', l)) h = h.0
