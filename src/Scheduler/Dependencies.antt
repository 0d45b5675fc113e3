-- ===== src/Scheduler/Dependencies.antt =====
-- src/scheduler.rs: registration of systems and their explicit dependencies: `add_dependency`,
-- `would_create_cycle`, `dfs_check_cycle`, `add_system`, `add_system_with_metadata`.
pub mod Search
pub mod Decide
pub mod Acyclic
use tricti.Base.{
  ℕ, zero, suc, String, ◌<>◌, Bool, true, false, Option, none, some, List, [], ◌∷◌, ◌++◌, length,
  if◌then◌else◌, ◌==◌, ok, err, text_key,
}
use tricti.Base.HashMap.{HashMap}
use tricti.Base.HashMap
use tricti.Base.HashSet
use tricti.Ast.{SystemDef}
use tricti.Scheduler.Error.{deadlock_detected, scheduling_failure, Outcome}
use tricti.Scheduler.System.{SystemPriority, normal, SchedulableSystem, SystemScheduler}
use tricti.Scheduler.Conflicts.{add_graph_system}
use tricti.Scheduler.Validate.{validate_system_resources}

-- What `if let Some(system) = self.systems.get(current)` iterates over.
unfoldable pub dependencies_of : HashMap String SchedulableSystem → String → List String
unfolding HashMap.get
dependencies_of systems name = elim (HashMap.get name systems) [
  | none ↦ []
  | some system ↦ system.dependencies
]

-- The loop of `dfs_check_cycle` over the dependencies of one system; `visit` is the recursive call.
-- The result is the answer with the visited set; `none` means that the fuel ran out.
unfoldable pub visit_dependencies :
    (String → List String → Option (Bool × List String))
    → List String
    → List String
    → Option (Bool × List String)
visit_dependencies visit [] visited = some (false, visited)
visit_dependencies visit (dep ∷ deps) visited = elim (visit dep visited) [
  | none ↦ none
  | some (found, visited') ↦
      if found then some (true, visited') else visit_dependencies visit deps visited'
]

unfoldable pub dfs_check_cycle :
    ℕ
    → HashMap String SchedulableSystem
    → String
    → String
    → List String
    → Option (Bool × List String)
dfs_check_cycle zero systems target current visited = none
dfs_check_cycle (suc fuel) systems target current visited =
    let deeper =
      visit_dependencies (dfs_check_cycle fuel systems target) (dependencies_of systems current)
        (HashSet.insert current visited) in
    if current == target
    then some (true, visited)
    else if HashSet.contains visited current
    then some (false, visited)
    else deeper

-- One unit of fuel for each system and one more: each call marks a system that was not visited.
unfoldable pub would_create_cycle : HashMap String SchedulableSystem → String → String → Bool
would_create_cycle systems from to =
    let search = dfs_check_cycle (suc (length systems)) systems from to [] in
    if from == to then true else (elim search [ none ↦ false | some (found, _) ↦ found ])

-- A method's effect on the scheduler, which an error does not undo, and its result.
abbrev pub Effect : Type 0
Effect = SystemScheduler × Outcome (Unit {0})

unfoldable pub push_dependency : String → SchedulableSystem → SchedulableSystem
push_dependency dependency system = record system {
  dependencies = system.dependencies ++ dependency ∷ [];
}

unfoldable pub add_dependency : SystemScheduler → String → String → Effect
add_dependency s dependent dependency =
    if would_create_cycle s.systems dependent dependency
    then (s, err (deadlock_detected (dependent ∷ dependency ∷ [])))
    else (
      record s { systems = HashMap.modify dependent (push_dependency dependency) s.systems },
      ok tt,
    )

-- `system_priorities.get(name).unwrap_or_default()`
unfoldable pub priority_of : SystemScheduler → String → SystemPriority
unfolding HashMap.get
priority_of s name = elim (HashMap.get name s.system_priorities) [
  | none ↦ normal
  | some priority ↦ priority
]

unfoldable pub store_system : SystemScheduler → SchedulableSystem → SystemScheduler
unfolding HashMap.insert
store_system s system = record s {
  systems = HashMap.insert system.definition.name system s.systems;
}

-- `self.conflict_graph.add_system(name)`
unfoldable pub enter_graph : SystemScheduler → String → SystemScheduler
unfolding add_graph_system
enter_graph s name = record s { conflict_graph = add_graph_system s.conflict_graph name }

unfoldable pub add_system : SystemScheduler → SystemDef → Effect
add_system s system = elim (validate_system_resources system) [
  | err e ↦ (s, err e)
  | ok _ ↦
      let s' = enter_graph s system.name in
      let stored : SchedulableSystem = record {
        definition = system;
        priority = priority_of s' system.name;
        estimated_runtime = none;
        dependencies = [];
        last_execution_time = none;
      } in
      (store_system s' stored, ok tt)
]

-- The first loop of `add_system_with_metadata`: every dependency is registered.
unfoldable pub dependencies_exist :
    HashMap String SchedulableSystem → String → List String → Outcome (Unit {0})
unfolding HashMap.contains_key
dependencies_exist systems name [] = ok tt
dependencies_exist systems name (dep ∷ deps) =
    if HashMap.contains_key dep systems
    then dependencies_exist systems name deps
    else err
        (scheduling_failure ("Dependency '" <> dep <> "' not found for system '" <> name <> "'"))

-- The second loop: no dependency leads back to the system.
unfoldable pub dependencies_acyclic :
    HashMap String SchedulableSystem → String → List String → Outcome (Unit {0})
dependencies_acyclic systems name [] = ok tt
dependencies_acyclic systems name (dep ∷ deps) =
    if would_create_cycle systems name dep
    then err (deadlock_detected (name ∷ dep ∷ []))
    else dependencies_acyclic systems name deps

unfoldable pub add_system_with_metadata :
    SystemScheduler → SystemDef → SystemPriority → Option ℕ → List String → Effect
unfolding store_system enter_graph validate_system_resources dependencies_exist dependencies_acyclic
add_system_with_metadata s system level runtime deps = elim (validate_system_resources system) [
  | err e ↦ (s, err e)
  | ok _ ↦
      let s' = enter_graph s system.name in
      let stored : SchedulableSystem = record {
        definition = system;
        priority = level;
        estimated_runtime = runtime;
        dependencies = deps;
        last_execution_time = none;
      } in
      elim (dependencies_exist s'.systems system.name deps) [
        | err e ↦ (s', err e)
        | ok _ ↦ elim (dependencies_acyclic s'.systems system.name deps) [
          | err e ↦ (s', err e)
          | ok _ ↦ (store_system s' stored, ok tt)
        ]
      ]
]
