-- ===== src/Scheduler/System.antt =====
-- src/scheduler.rs: systems with their scheduling data, and the state of `SystemScheduler`.
use tricti.Base.{ℕ, String, Option, none, some, List, [], text_key}
use tricti.Base.HashMap.{HashMap}
use tricti.Base.HashMap
use tricti.Ast.{SystemDef}
use tricti.Scheduler.State.{SchedulerState}
use tricti.Scheduler.State
use tricti.Scheduler.Conflicts.{ConflictGraph, empty_graph}

pub data SystemPriority : Type 0 where
  low normal high critical : SystemPriority

-- The derived order is that of the discriminants.
unfoldable pub priority_rank : SystemPriority → ℕ
priority_rank low = 0
priority_rank normal = 1
priority_rank high = 2
priority_rank critical = 3

pub data SchedulingStrategy : Type 0 where
  fcfs priority round_robin sjf work_stealing : SchedulingStrategy

-- Runtimes and times are milliseconds.
pub record SchedulableSystem : Type 0 where
  pub definition : SystemDef
  pub priority : SystemPriority
  pub estimated_runtime : Option ℕ
  pub dependencies : List String
  pub last_execution_time : Option ℕ

pub record SystemScheduler : Type 0 where
  pub systems : HashMap String SchedulableSystem
  pub state : SchedulerState
  pub conflict_graph : ConflictGraph
  pub strategy : SchedulingStrategy
  pub max_concurrent_systems : ℕ
  pub system_priorities : HashMap String SystemPriority

unfoldable pub with_config : SchedulingStrategy → ℕ → SystemScheduler
unfolding State.new empty_graph
with_config strategy max_concurrent = record {
  systems = [];
  state = State.new;
  conflict_graph = empty_graph;
  strategy = strategy;
  max_concurrent_systems = max_concurrent;
  system_priorities = [];
}

-- What `available_parallelism` answers is an argument.
unfoldable pub new : Option ℕ → SystemScheduler
unfolding with_config
new none = with_config fcfs 4
new (some parallelism) = with_config fcfs parallelism

unfoldable pub set_strategy : SystemScheduler → SchedulingStrategy → SystemScheduler
set_strategy s strategy = record s { strategy = strategy }

unfoldable pub set_system_priority : SystemScheduler → String → SystemPriority → SystemScheduler
unfolding HashMap.insert HashMap.modify
set_system_priority s system_name level = record s {
  system_priorities = HashMap.insert system_name level s.system_priorities;
  systems = HashMap.modify system_name (λ system. record system { priority = level }) s.systems;
}
