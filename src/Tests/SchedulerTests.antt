-- ===== src/Tests/SchedulerTests.antt =====
-- The scheduler's theorems at concrete systems, and runs of its main operations.
use tricti.Base.{String, ◌≡◌, refl, ◌↔◌, ◌⊎◌, true, some, List, [], ◌∷◌, ok, text_key}
use tricti.Base.HashMap
use tricti.Base.HashSet
use tricti.Ast.{mutable}
use tricti.Scheduler.Error.{read_write}
use tricti.Scheduler.Conflicts.{ConflictGraph, add_conflict, has_conflict}
use tricti.Scheduler.Conflicts.Graph.{IsSymmetric, add_conflict-IsSymmetric}
use tricti.Scheduler.System.{normal, SystemScheduler}
use tricti.Scheduler.Validate.{validate_system_resources}
use tricti.Scheduler.Validate.Consistent.{AllAgree, declarations, validate_system_resources_iff}
use tricti.Scheduler.Dependencies.{dependencies_of, add_dependency, add_system_with_metadata}
use tricti.Scheduler.Dependencies.Acyclic.{
  IsAcyclic, add_dependency-IsAcyclic, add_system_with_metadata-IsAcyclic,
}
use tricti.Scheduler.Run.{can_schedule_system, schedule_system}
use tricti.Scheduler.Run.Acquire.{schedule_system_iff}
use tricti.Scheduler.Build.{build_conflict_graph}
use tricti.Scheduler.Build.Clashes.{Clash, build_conflict_graph_lem}
use tricti.Scheduler.Deadlock.{detect_deadlocks}
use tricti.Scheduler.Deadlock.Verdict.{Verdict, detect_deadlocks-Verdict}
use tricti.Tests.Samples.{definition, unlinked, waiting}

unlinked-IsSymmetric : IsSymmetric unlinked
unfolding has_conflict
unlinked-IsSymmetric a b = refl

schedule_system_iff_example :
    ((schedule_system 7 waiting "reader").1 ≡ ok tt) ↔ (can_schedule_system waiting "reader" ≡ true)
schedule_system_iff_example = schedule_system_iff 7 waiting "reader"

no_deps : SystemScheduler
no_deps = record waiting { systems = [] }

no_deps-IsAcyclic : IsAcyclic no_deps
unfolding no_deps dependencies_of HashMap.get HashSet.contains
no_deps-IsAcyclic (a, b, m, r) = cc

add_dependency-IsAcyclic_example : IsAcyclic (add_dependency no_deps "a" "b").0
add_dependency-IsAcyclic_example = add_dependency-IsAcyclic no_deps "a" "b" no_deps-IsAcyclic

add_system_with_metadata-IsAcyclic_example :
    IsAcyclic
      (add_system_with_metadata no_deps (definition "a" mutable) normal (some 3) ("b" ∷ [])).0
add_system_with_metadata-IsAcyclic_example =
    add_system_with_metadata-IsAcyclic no_deps (definition "a" mutable) normal (some 3) ("b" ∷ [])
      no_deps-IsAcyclic

validate_system_resources_iff_example :
    (validate_system_resources (definition "a" mutable) ≡ ok tt)
    ↔ AllAgree (declarations (definition "a" mutable).parameters)
validate_system_resources_iff_example = validate_system_resources_iff (definition "a" mutable)

abbrev reader : String
reader = "reader"

abbrev writer : String
writer = "writer"

linked : ConflictGraph
linked = add_conflict unlinked "reader" "writer" read_write

linked-IsSymmetric : IsSymmetric linked
unfolding linked
linked-IsSymmetric =
    add_conflict-IsSymmetric unlinked "reader" "writer" read_write unlinked-IsSymmetric

build_conflict_graph_lem_example :
    ((build_conflict_graph waiting).1 ≡ ok tt)
    × ((has_conflict (build_conflict_graph waiting).0.conflict_graph "reader" "writer" ≡ true) ↔ (
        (has_conflict unlinked "reader" "writer" ≡ true) ⊎ Clash waiting.systems "reader" "writer"))
unfolding HashMap.get
build_conflict_graph_lem_example =
    build_conflict_graph_lem waiting "reader" "writer" (refl, (refl, tt))

detect_deadlocks-Verdict_example :
    Verdict linked linked-IsSymmetric linked.systems (detect_deadlocks linked)
detect_deadlocks-Verdict_example = detect_deadlocks-Verdict linked linked-IsSymmetric
