-- ===== src/EventLoop/Queue/Order.antt =====
-- src/event_loop_manager.rs: which event the queue gives out, and how many it takes.
use mathlib.Core.List.{Perm}
use tricti.Base.{
  ℕ, ◌≤◌, ◌<◌, ◌≡◌, refl, ap, ◌↔◌, ◌⊎◌, inl, inr, true, false, Option, none, some, List, [], ◌∷◌,
  length, All, All-map, ok, arith, leb, ◌==◌, number_key, Bool-cases, nat_beq_iff,
}
use tricti.Base.BinaryHeap
use tricti.Base.BinaryHeap.{Popped, pop-none, pop-Popped}
use tricti.EventLoop.Queue.{
  TaskPriority, rank, PriorityEvent, EventQueue, at_most, new, enqueue, dequeue, clear,
}

-- A call on the queue.
pub data Call (Event : Type 0) : Type 0 where
  enqueues : (now : ℕ) (event : Event) (priority : TaskPriority) → Call Event
  dequeues clears : Call Event

module _ {Event : Type 0} where
  at_most_total : (a b : PriorityEvent Event) → at_most a b ≡ false → at_most b a ≡ true
  unfolding at_most
  at_most_total a b h = ground (arith, h)

  at_most_refl : (a : PriorityEvent Event) → at_most a a ≡ true
  unfolding at_most
  at_most_refl a = ground arith

  at_most_trans :
      (a b c : PriorityEvent Event) → at_most a b ≡ true → at_most b c ≡ true → at_most a c ≡ true
  unfolding at_most
  at_most_trans a b c h k = ground (arith, h, k)

  -- `e` is less urgent than `z`, or it is as urgent and not older.
  abbrev pub GoesBefore : PriorityEvent Event → PriorityEvent Event → Type 0
  GoesBefore e z =
      (rank e.priority < rank z.priority)
      ⊎ ((rank e.priority ≡ rank z.priority) × (z.timestamp ≤ e.timestamp))

  at_most-GoesBefore : (z e : PriorityEvent Event) → at_most z e ≡ true → GoesBefore e z
  unfolding at_most
  at_most-GoesBefore z e h = elim (Bool-cases (rank e.priority == rank z.priority)) [
    | inl same ↦
        inr ((nat_beq_iff (rank e.priority) (rank z.priority)).0 same, ground (arith, h, same))
    | inr other ↦ inl (ground (arith, h, other))
  ]

  -- The queue gives nothing out exactly where it is empty. Otherwise it gives out an event of the
  -- lowest priority that waits, the youngest of these, and keeps all others.
  pub dequeue_lem :
      (q : EventQueue Event)
      → ((q.priority_queue ≡ []) × (dequeue q ≡ (q, none)))
        ⊎ (e : PriorityEvent Event) × (rest : List (PriorityEvent Event)) × (dequeue q
            ≡ (record q { priority_queue = rest }, some e.event))
          × Perm (e ∷ rest) q.priority_queue
          × All (GoesBefore e) q.priority_queue
  unfolding dequeue
  dequeue_lem q = answer (BinaryHeap.pop at_most q.priority_queue) refl
    where
      answer :
          (o : Option (PriorityEvent Event × List (PriorityEvent Event)))
          → BinaryHeap.pop at_most q.priority_queue ≡ o
          → ((q.priority_queue ≡ []) × (dequeue q ≡ (q, none)))
            ⊎ (e : PriorityEvent Event) × (rest : List (PriorityEvent Event)) × (dequeue q
                ≡ (record q { priority_queue = rest }, some e.event))
              × Perm (e ∷ rest) q.priority_queue
              × All (GoesBefore e) q.priority_queue
      answer none h = inl (pop-none at_most q.priority_queue h, rw (h, dequeue) refl)
      answer (some (e, rest)) h =
          let p =
            pop-Popped at_most at_most_total at_most_refl at_most_trans q.priority_queue e rest h in
          inr (
            e,
            rest,
            rw (h, dequeue) refl,
            p.same,
            All-map _ _ (λ z k. at_most-GoesBefore z e k) q.priority_queue p.greatest,
          )

  unfoldable pub step : EventQueue Event → Call Event → EventQueue Event
  step q (enqueues now event priority) = (enqueue now q event priority).0
  step q dequeues = (dequeue q).0
  step q clears = clear q

  unfoldable pub run : EventQueue Event → List (Call Event) → EventQueue Event
  run q [] = q
  run q (call ∷ calls) = run (step q call) calls

  -- No event is counted against the capacity.
  Uncounted : ℕ → EventQueue Event → Type 0
  Uncounted capacity q = (q.events ≡ []) × (q.capacity ≡ capacity)

  step-Uncounted :
      (capacity : ℕ) (q : EventQueue Event) (call : Call Event)
      → Uncounted capacity q
      → Uncounted capacity (step q call)
  unfolding Uncounted step enqueue dequeue clear
  step-Uncounted capacity q (enqueues now event priority) u =
      elim (Bool-cases (leb q.capacity (length q.events))) [
        | inl full ↦ rw (full, step, enqueue) u
        | inr room ↦ rw (room, step, enqueue) u
      ]
  step-Uncounted capacity q dequeues u = taken (BinaryHeap.pop at_most q.priority_queue)
    where
      taken :
          (o : Option (PriorityEvent Event × List (PriorityEvent Event)))
          → Uncounted capacity
              (elim o as (λ _. EventQueue Event × Option Event) [
                | none ↦ (q, none)
                | some (e, rest) ↦ (record q { priority_queue = rest }, some e.event)
              ]).0
      taken none = u
      taken (some (e, rest)) = u
  step-Uncounted capacity q clears u = (refl, u.1)

  run-Uncounted :
      (capacity : ℕ) (q : EventQueue Event) (calls : List (Call Event))
      → Uncounted capacity q
      → Uncounted capacity (run q calls)
  unfolding run
  run-Uncounted capacity q [] u = u
  run-Uncounted capacity q (call ∷ calls) u =
      run-Uncounted capacity (step q call) calls (step-Uncounted capacity q call u)

  Uncounted-enqueue :
      (capacity : ℕ) (q : EventQueue Event) (now : ℕ) (event : Event) (priority : TaskPriority)
      → Uncounted capacity q
      → ((enqueue now q event priority).1 ≡ ok tt) ↔ (0 < capacity)
  unfolding Uncounted enqueue
  Uncounted-enqueue capacity q now event priority (empty, same) =
      elim (Bool-cases (leb q.capacity (length q.events))) [
        | inl full ↦ rw (full, enqueue) (λ h. cc, λ h. ground (arith, ap length empty, full, same))
        | inr room ↦ rw (room, enqueue) (λ h. ground (arith, room, same), λ h. refl)
      ]

  -- Whatever was enqueued before, and however many events wait, a new queue goes on to take events
  -- exactly where its capacity is not zero.
  pub enqueue_iff :
      (capacity : ℕ) (calls : List (Call Event)) (now : ℕ) (event : Event) (priority : TaskPriority)
      → ((enqueue now (run (new capacity) calls) event priority).1 ≡ ok tt) ↔ (0 < capacity)
  unfolding Uncounted new
  enqueue_iff capacity calls now event priority =
      Uncounted-enqueue capacity (run (new capacity) calls) now event priority
        (run-Uncounted capacity (new capacity) calls (refl, refl))
