-- ===== src/EventLoop/Queue.antt =====
-- src/event_loop_manager.rs: `EventQueue` and the order of its events; `TaskPriority` is that of
-- src/async_runtime.rs.
pub mod Order
use tricti.Base.{
  ℕ, String, Bool, Option, none, some, List, [], ◌∷◌, ltb, leb, length, if◌then◌else◌, ◌==◌, ok,
  err, number_key,
}
use tricti.Base.Result.{Result}
use tricti.Base.BinaryHeap

pub data TaskPriority : Type 0 where
  low normal high critical : TaskPriority

-- The derived order.
unfoldable pub rank : TaskPriority → ℕ
rank low = 0
rank normal = 1
rank high = 2
rank critical = 3

pub record PriorityEvent (Event : Type 0) : Type 0 where
  pub event : Event
  pub priority : TaskPriority
  pub timestamp : ℕ

pub record EventQueue (Event : Type 0) : Type 0 where
  pub events : List Event
  pub capacity : ℕ
  pub priority_queue : List (PriorityEvent Event)

-- The one variant of the runtime's errors that the queue builds.
pub data QueueError : Type 0 where
  system_error : (system message : String) → QueueError

module _ {Event : Type 0} where
  -- `a.cmp(b)` is not `Greater`: the priorities are compared the other way round, then the times.
  unfoldable pub at_most : PriorityEvent Event → PriorityEvent Event → Bool
  at_most a b =
      if rank b.priority == rank a.priority
      then leb a.timestamp b.timestamp
      else ltb (rank b.priority) (rank a.priority)

  unfoldable pub new : ℕ → EventQueue Event
  new capacity = record { events = []; capacity = capacity; priority_queue = [] }

  -- The queue afterwards and the result; `now` is what the clock shows.
  unfoldable pub enqueue :
      ℕ → EventQueue Event → Event → TaskPriority → EventQueue Event × Result QueueError (Unit {0})
  enqueue now q event priority =
      if leb q.capacity (length q.events)
      then (q, err (system_error "event_queue" "Event queue capacity exceeded"))
      else (
        record q {
          priority_queue =
              (record { event = event; priority = priority; timestamp = now }) ∷ q.priority_queue;
        },
        ok tt,
      )

  unfoldable pub dequeue : EventQueue Event → EventQueue Event × Option Event
  dequeue q = elim (BinaryHeap.pop at_most q.priority_queue) [
    | none ↦ (q, none)
    | some (e, rest) ↦ (record q { priority_queue = rest }, some e.event)
  ]

  unfoldable pub clear : EventQueue Event → EventQueue Event
  clear q = record q { events = []; priority_queue = [] }
