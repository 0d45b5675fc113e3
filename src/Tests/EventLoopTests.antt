-- ===== src/Tests/EventLoopTests.antt =====
-- The event loop's theorems at concrete queues, with numbers for events, and runs.
use mathlib.Core.List.{Perm}
use tricti.Base.{ℕ, ◌<◌, ◌≡◌, refl, ◌↔◌, ◌⊎◌, none, some, List, [], ◌∷◌, All, ok}
use tricti.Base.BinaryHeap
use tricti.EventLoop.Queue
use tricti.EventLoop.Timers
use tricti.EventLoop.Queue.{low, critical, EventQueue, PriorityEvent, new, enqueue, dequeue}
use tricti.EventLoop.Queue.Order.{GoesBefore, enqueues, run, dequeue_lem, enqueue_iff}
use tricti.EventLoop.Timers.{ScheduledTimer, TimerManager, get_fired_timers, fire}
use tricti.EventLoop.Timers.Fired.{Fires, get_fired_timers-Fires}

-- A queue for one event that holds two.
abbrev waiting : EventQueue ℕ
waiting = record {
  events = [];
  capacity = 1;
  priority_queue =
      (record { event = 20; priority = low; timestamp = 2 })
      ∷ (record { event = 10; priority = critical; timestamp = 1 })
      ∷ [];
}

-- The event of low priority goes first, although a critical one waits.
low_first : (dequeue waiting).1 ≡ some 20
unfolding dequeue BinaryHeap.pop Queue.at_most Queue.rank
low_first = refl

dequeue_lem_example :
    ((waiting.priority_queue ≡ []) × (dequeue waiting ≡ (waiting, none)))
    ⊎ (e : PriorityEvent ℕ) × (rest : List (PriorityEvent ℕ)) × (dequeue waiting
        ≡ (record waiting { priority_queue = rest }, some e.event))
      × Perm (e ∷ rest) waiting.priority_queue
      × All (GoesBefore e) waiting.priority_queue
dequeue_lem_example = dequeue_lem waiting

enqueue_iff_example :
    ((enqueue 3
        (run {Event = ℕ} (new 1) (enqueues 1 10 critical ∷ enqueues 2 20 low ∷ []))
        30
        low).1
      ≡ ok tt)
    ↔ (0 < 1)
enqueue_iff_example = enqueue_iff 1 (enqueues 1 10 critical ∷ enqueues 2 20 low ∷ []) 3 30 low

abbrev timer : ℕ → ℕ → ScheduledTimer ℕ
timer id at = record { id = id; task_id = id; fire_time = at; event = id }

abbrev clock : TimerManager ℕ
clock = record { timers = timer 0 9 ∷ timer 1 4 ∷ timer 2 5 ∷ []; next_timer_id = 3 }

two_fire : (get_fired_timers 6 clock).1 ≡ timer 1 4 ∷ timer 2 5 ∷ []
unfolding get_fired_timers fire BinaryHeap.pop Timers.at_most
two_fire = refl

get_fired_timers-Fires_example :
    Fires 6 clock.timers (get_fired_timers 6 clock).1 (get_fired_timers 6 clock).0.timers
get_fired_timers-Fires_example = get_fired_timers-Fires 6 clock
