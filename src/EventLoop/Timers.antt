-- ===== src/EventLoop/Timers.antt =====
-- src/event_loop_manager.rs: `TimerManager` and the order of its timers.
pub mod Fired
use tricti.Base.{
  ℕ, zero, suc, ◌+◌, Bool, not, none, some, List, [], ◌∷◌, leb, length, retain, if◌then◌else◌, ◌==◌,
  number_key,
}
use tricti.Base.BinaryHeap

pub record ScheduledTimer (Event : Type 0) : Type 0 where
  pub id : ℕ
  pub task_id : ℕ
  pub fire_time : ℕ
  pub event : Event

pub record TimerManager (Event : Type 0) : Type 0 where
  pub timers : List (ScheduledTimer Event)
  pub next_timer_id : ℕ

module _ {Event : Type 0} where
  -- `a.cmp(b)` is not `Greater`: the earlier time is the greater timer.
  unfoldable pub at_most : ScheduledTimer Event → ScheduledTimer Event → Bool
  at_most a b = leb b.fire_time a.fire_time

  unfoldable pub new : TimerManager Event
  new = record { timers = []; next_timer_id = 0 }

  -- The manager afterwards and the timer's identifier.
  unfoldable pub schedule : ℕ → TimerManager Event → ℕ → ℕ → Event → TimerManager Event × ℕ
  schedule now m task_id delay event = (
    record {
      timers =
          (record {
            id = m.next_timer_id;
            task_id = task_id;
            fire_time = now + delay;
            event = event;
          })
          ∷ m.timers;
      next_timer_id = suc m.next_timer_id;
    },
    m.next_timer_id,
  )

  unfoldable pub cancel : TimerManager Event → ℕ → TimerManager Event
  cancel m timer_id = record m { timers = retain (λ timer. not (timer.id == timer_id)) m.timers }

  unfoldable pub cancel_all : TimerManager Event → TimerManager Event
  cancel_all m = record m { timers = [] }

  -- The loop: the timers that fire and those that are left, with one unit of fuel for each round.
  unfoldable pub fire :
      ℕ
      → ℕ
      → List (ScheduledTimer Event)
      → List (ScheduledTimer Event) × List (ScheduledTimer Event)
  fire zero now timers = ([], timers)
  fire (suc fuel) now timers = elim (BinaryHeap.pop at_most timers) [
    | none ↦ ([], timers)
    | some (timer, rest) ↦
        let (fired, left) = fire fuel now rest in
        if leb timer.fire_time now then (timer ∷ fired, left) else ([], timers)
  ]

  -- A round takes one timer, so there are no more rounds than timers.
  unfoldable pub get_fired_timers :
      ℕ → TimerManager Event → TimerManager Event × List (ScheduledTimer Event)
  get_fired_timers now m =
      let (fired, left) = fire (length m.timers) now m.timers in (record m { timers = left }, fired)
