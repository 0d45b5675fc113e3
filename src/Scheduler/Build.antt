-- ===== src/Scheduler/Build.antt =====
-- src/scheduler.rs: `build_conflict_graph`. The names come from the keys of the map, so the lookups
-- of their definitions do not fail; the loops walk the entries.
pub mod Row
pub mod Clashes
use tricti.Base.{String, List, [], ◌∷◌, if◌then◌else◌, ok, err, ◌>>=◌}
use tricti.Ast.{SystemDef}
use tricti.Scheduler.Error.{Outcome}
use tricti.Scheduler.Conflicts.{ConflictGraph, is_conflict, check_system_conflict, add_conflict}
use tricti.Scheduler.System.{SchedulableSystem, SystemScheduler}
use tricti.Scheduler.Dependencies.{Effect}

-- The inner loop: one system against those that stand behind it.
unfoldable pub build_row :
    ConflictGraph → String → SystemDef → List (String × SchedulableSystem) → Outcome ConflictGraph
build_row g name1 system1 [] = ok g
build_row g name1 system1 ((name2, system2) ∷ rest) = do
  conflict ← check_system_conflict system1 system2.definition
  build_row (if is_conflict conflict then add_conflict g name1 name2 conflict else g) name1 system1
      rest

unfoldable pub build_rows :
    ConflictGraph → List (String × SchedulableSystem) → Outcome ConflictGraph
build_rows g [] = ok g
build_rows g ((name, system) ∷ rest) = do
  g' ← build_row g name system.definition rest
  build_rows g' rest

unfoldable pub build_conflict_graph : SystemScheduler → Effect
build_conflict_graph s = elim (build_rows s.conflict_graph s.systems) [
  | err e ↦ (s, err e)
  | ok g ↦ (record s { conflict_graph = g }, ok tt)
]
