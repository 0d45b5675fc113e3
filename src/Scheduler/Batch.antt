-- ===== src/Scheduler/Batch.antt =====
-- src/scheduler.rs: `get_schedulable_systems`, `schedule_batch`, the statistics and the time
-- estimate.
pub mod Loops
pub mod Order
use tricti.Base.{
  ℕ, zero, suc, ◌+◌, ◌-◌, ◌/◌, ◌^◌, min, max, String, Bool, true, Option, none, some, List, [], ◌∷◌,
  ◌++◌, length, retain, ltb, leb, nat_beq, if◌then◌else◌, ok, err, text_key,
}
use tricti.Base.HashMap.{HashMap}
use tricti.Base.HashMap
use tricti.Base.Sort.{sort_by}
use tricti.Scheduler.Tracker.{get_active_resources}
use tricti.Scheduler.State
use tricti.Scheduler.State.{SchedulerState}
use tricti.Scheduler.System.{
  normal, priority_rank, SchedulingStrategy, fcfs, priority, round_robin, sjf, work_stealing,
  SchedulableSystem, SystemScheduler,
}
use mathlib.Core.Option
use tricti.Scheduler.Run.{can_schedule_system, schedule_system}

-- `self.systems.get(name).map(f).unwrap_or(default)`
unfoldable pub look_up {ℓ} :
    {A : Type ℓ} → SystemScheduler → (SchedulableSystem → Option A) → A → String → A
look_up s f default name = elim (HashMap.get name s.systems) [
  | none ↦ default
  | some system ↦ elim (f system) [ none ↦ default | some a ↦ a ]
]

u64_max : ℕ
u64_max = 2 ^ 64 - 1

-- The comparator of each strategy: `a` may stand before `b`.
unfoldable pub comes_first : SystemScheduler → SchedulingStrategy → String → String → Bool
unfolding look_up u64_max priority_rank
comes_first s fcfs a b = true
comes_first s priority a b =
    leb (priority_rank (look_up s (λ x. some x.priority) normal b))
      (priority_rank (look_up s (λ x. some x.priority) normal a))
comes_first s sjf a b =
    leb (look_up s (λ x. x.estimated_runtime) u64_max a)
      (look_up s (λ x. x.estimated_runtime) u64_max b)
comes_first s round_robin a b =
    leb (look_up s (λ x. x.last_execution_time) 0 a) (look_up s (λ x. x.last_execution_time) 0 b)
comes_first s work_stealing a b =
    leb (look_up s (λ x. some (length x.dependencies)) 0 b)
      (look_up s (λ x. some (length x.dependencies)) 0 a)

-- First come, first served does not sort; a stable sort by the constant comparator is the identity.
unfoldable pub get_schedulable_systems : SystemScheduler → List String
get_schedulable_systems s =
    if leb s.max_concurrent_systems (length s.state.executing_systems)
    then []
    else sort_by (comes_first s s.strategy) (retain (can_schedule_system s) s.state.pending_systems)

-- `Vec::remove` within bounds.
unfoldable pub remove_at : ℕ → List String → Option (String × List String)
remove_at i [] = none
remove_at zero (x ∷ xs) = some (x, xs)
remove_at (suc i) (x ∷ xs) = elim (remove_at i xs) [ none ↦ none | some (y, ys) ↦ some (y, x ∷ ys) ]

-- The loop of work stealing: `rounds` are left, and `i` is the loop's index.
unfoldable pub steal_loop :
    (ℕ → ℕ) → ℕ → ℕ → SystemScheduler → List String → List String → SystemScheduler × List String
steal_loop clock zero i s schedulable scheduled = (s, scheduled)
steal_loop clock (suc rounds) i s schedulable scheduled = elim (remove_at i schedulable) [
  | none ↦ steal_loop clock rounds (suc i) s schedulable scheduled
  | some (name, rest) ↦
      let (s', outcome) = schedule_system (clock i) s name in
      elim outcome [
        | ok _ ↦
            steal_loop clock rounds (suc i) s' (get_schedulable_systems s') (scheduled ++ name ∷ [])
        | err _ ↦ steal_loop clock rounds (suc i) s' rest scheduled
      ]
]

-- The loop of the other strategies over the first `rounds` systems.
unfoldable pub order_loop :
    (ℕ → ℕ) → ℕ → ℕ → SystemScheduler → List String → List String → SystemScheduler × List String
order_loop clock zero i s schedulable scheduled = (s, scheduled)
order_loop clock (suc rounds) i s [] scheduled = (s, scheduled)
order_loop clock (suc rounds) i s (name ∷ rest) scheduled =
    let (s', outcome) = schedule_system (clock i) s name in
    elim outcome [
      | ok _ ↦ order_loop clock rounds (suc i) s' rest (scheduled ++ name ∷ [])
      | err _ ↦ order_loop clock rounds (suc i) s' rest scheduled
    ]

unfoldable pub batch_loop :
    (ℕ → ℕ) → SchedulingStrategy → ℕ → SystemScheduler → List String → SystemScheduler × List String
batch_loop clock work_stealing rounds s schedulable =
    steal_loop clock (min rounds (length schedulable)) 0 s schedulable []
batch_loop clock _ rounds s schedulable =
    order_loop clock (min rounds (length schedulable)) 0 s schedulable []

-- `none` is the panic of the subtraction `max_concurrent_systems - executing_systems.len()` when more
-- systems execute than the maximum. `clock i` is the time at the loop's index `i`.
unfoldable pub schedule_batch : (ℕ → ℕ) → SystemScheduler → Option (SystemScheduler × List String)
schedule_batch clock s =
    let executing = length s.state.executing_systems in
    if ltb s.max_concurrent_systems executing
    then none
    else if nat_beq (s.max_concurrent_systems - executing) 0
    then some (s, [])
    else some (
        batch_loop clock s.strategy (s.max_concurrent_systems - executing) s
          (get_schedulable_systems s))

pub record SchedulingStats : Type 0 where
  pub total_systems : ℕ
  pub pending_systems : ℕ
  pub executing_systems : ℕ
  pub completed_systems : ℕ
  pub active_resources : ℕ
  pub max_concurrent : ℕ
  pub strategy : SchedulingStrategy

unfoldable pub get_scheduling_stats : SystemScheduler → SchedulingStats
get_scheduling_stats s = record {
  total_systems = length s.systems;
  pending_systems = length s.state.pending_systems;
  executing_systems = length s.state.executing_systems;
  completed_systems = length s.state.completed_systems;
  active_resources = length (get_active_resources s.state.resource_tracker);
  max_concurrent = s.max_concurrent_systems;
  strategy = s.strategy;
}

-- One second where no runtime is known, and nothing for a system that is not registered.
unfoldable pub runtime_of : Option SchedulableSystem → ℕ
runtime_of none = 0
runtime_of (some system) = elim system.estimated_runtime [ none ↦ 1000 | some runtime ↦ runtime ]

-- `total_time += …` over the remaining systems in `u64`; `none` is the overflow's panic.
unfoldable pub add_runtimes : HashMap String SchedulableSystem → ℕ → List String → Option ℕ
unfolding u64_max
add_runtimes systems total [] = some total
add_runtimes systems total (name ∷ rest) =
    let total' = total + runtime_of (HashMap.get name systems) in
    let more = add_runtimes systems total' rest in if leb total' u64_max then more else none

-- `none` is a panic; what remains is otherwise always an estimate.
unfoldable pub estimate_completion_time : SystemScheduler → Option ℕ
estimate_completion_time s =
    if State.is_complete s.state
    then some 0
    else Option.map (λ total. total / max s.max_concurrent_systems 1)
        (add_runtimes s.systems 0 (s.state.pending_systems ++ s.state.executing_systems))
