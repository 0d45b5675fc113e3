-- ===== src/Scheduler/Deadlock.antt =====
-- src/scheduler.rs: `detect_deadlocks` and `dfs_cycle_detection`, a search for cycles along the edges
-- of the conflict graph.
pub mod Verdict
use tricti.Base.{
  ℕ, zero, suc, String, Bool, true, false, Option, none, some, List, [], ◌∷◌, ◌++◌, length,
  if◌then◌else◌, ◌==◌, ok, err, text_key,
}
use tricti.Base.HashMap
use tricti.Base.HashSet
use tricti.Scheduler.Error.{ConflictType, deadlock_detected, Outcome}
use tricti.Scheduler.Conflicts.{ConflictGraph}

-- The three mutable arguments of the search.
pub record Walk : Type 0 where
  pub visited : List String
  pub rec_stack : List String
  pub path : List String

unfoldable pub enter : String → Walk → Walk
enter system w = record {
  visited = HashSet.insert system w.visited;
  rec_stack = HashSet.insert system w.rec_stack;
  path = w.path ++ system ∷ [];
}

-- `Vec::pop`.
unfoldable pub drop_last : List String → List String
drop_last [] = []
drop_last (x ∷ []) = []
drop_last (x ∷ y ∷ ys) = x ∷ drop_last (y ∷ ys)

unfoldable pub leave : String → Walk → Walk
unfolding drop_last
leave system w = record w { rec_stack = HashSet.remove system w.rec_stack; path = drop_last w.path }

-- The path from the first occurrence of the neighbour on, as `position` and the slice give it.
unfoldable pub path_from : String → List String → Option (List String)
path_from neighbor [] = none
path_from neighbor (x ∷ xs) = if x == neighbor then some (x ∷ xs) else path_from neighbor xs

unfoldable pub close_cycle : String → Walk → Walk
unfolding path_from
close_cycle neighbor w = elim (path_from neighbor w.path) [
  | none ↦ w
  | some cycle ↦ record w { path = cycle ++ neighbor ∷ [] }
]

-- The loop over the conflicts of a system; `visit` is the recursive call, and `none` means that the
-- fuel ran out. The search itself never returns an error.
unfoldable pub visit_conflicts :
    (String → Walk → Option (Bool × Walk))
    → List (String × ConflictType)
    → Walk
    → Option (Bool × Walk)
visit_conflicts visit [] w = some (false, w)
visit_conflicts visit ((neighbor, _) ∷ conflicts) w = elim (HashSet.contains w.visited neighbor) [
  | false ↦ elim (visit neighbor w) [
    | none ↦ none
    | some (found, w') ↦ elim found [
      | true ↦ some (true, w')
      | false ↦ visit_conflicts visit conflicts w'
    ]
  ]
  | true ↦ elim (HashSet.contains w.rec_stack neighbor) [
    | true ↦ some (true, close_cycle neighbor w)
    | false ↦ visit_conflicts visit conflicts w
  ]
]

-- A search that found nothing leaves the system.
unfoldable pub backtrack : String → Option (Bool × Walk) → Option (Bool × Walk)
unfolding leave
backtrack system none = none
backtrack system (some (true, w)) = some (true, w)
backtrack system (some (false, w)) = some (false, leave system w)

unfoldable pub conflicts_of : ConflictGraph → String → List (String × ConflictType)
conflicts_of g system = elim (HashMap.get system g.edges) [ none ↦ [] | some conflicts ↦ conflicts ]

unfoldable pub dfs_cycle_detection : ℕ → ConflictGraph → String → Walk → Option (Bool × Walk)
dfs_cycle_detection zero g system w = none
dfs_cycle_detection (suc fuel) g system w =
    backtrack system
      (visit_conflicts (dfs_cycle_detection fuel g) (conflicts_of g system) (enter system w))

-- The loop over all systems of the graph.
unfoldable pub detect_from : ℕ → ConflictGraph → List String → Walk → Option (Outcome (Unit {0}))
detect_from fuel g [] w = some (ok tt)
detect_from fuel g (system ∷ systems) w = elim (HashSet.contains w.visited system) [
  | true ↦ detect_from fuel g systems w
  | false ↦ elim (dfs_cycle_detection fuel g system w) [
    | none ↦ none
    | some (found, w') ↦ elim found [
      | true ↦ some (err (deadlock_detected w'.path))
      | false ↦ detect_from fuel g systems w'
    ]
  ]
]

-- One unit of fuel for each system with an edge list, and one more.
unfoldable pub detect_deadlocks : ConflictGraph → Option (Outcome (Unit {0}))
detect_deadlocks g =
    detect_from (suc (length g.edges)) g g.systems
      (record { visited = []; rec_stack = []; path = [] })
