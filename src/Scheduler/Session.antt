-- ===== src/Scheduler/Session.antt =====
-- src/scheduler.rs: histories of calls on the scheduler while it runs systems.
use tricti.Base.{ℕ, String, none, some, List, [], ◌∷◌}
use tricti.Scheduler.State
use tricti.Scheduler.System.{SchedulingStrategy, SystemScheduler, set_strategy}
use tricti.Scheduler.Run.{schedule_system, complete_system}
use tricti.Scheduler.Batch.{schedule_batch}

-- `enqueue_system` of the scheduler.
unfoldable pub enqueue : SystemScheduler → String → SystemScheduler
enqueue s name = record s { state = State.enqueue_system s.state name }

-- A call, with what the clock shows.
pub data Call : Type 0 where
  enqueues : (name : String) → Call
  schedules : (now : ℕ) (name : String) → Call
  batches : (clock : ℕ → ℕ) → Call
  completes : (name : String) → Call
  reconfigures : SchedulingStrategy → Call

-- A batch that panics leaves the scheduler as it was.
unfoldable pub step : SystemScheduler → Call → SystemScheduler
step s (enqueues name) = enqueue s name
step s (schedules now name) = (schedule_system now s name).0
step s (batches clock) = elim (schedule_batch clock s) [ none ↦ s | some (s', _) ↦ s' ]
step s (completes name) = (complete_system s name).0
step s (reconfigures strategy) = set_strategy s strategy

unfoldable pub run : SystemScheduler → List Call → SystemScheduler
run s [] = s
run s (c ∷ cs) = run (step s c) cs
