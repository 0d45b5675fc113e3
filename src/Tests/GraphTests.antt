-- ===== src/Tests/GraphTests.antt =====
-- The theorems on timeouts and on the graph of dependencies at concrete inputs, and a run.
use tricti.Base.{ℕ, ◌⊎◌, String, ◌≡◌, refl, true, false, some, List, [], ◌∷◌, text_key, number_key}
use tricti.Base.HashMap
use tricti.Base.HashSet
use tricti.Lifecycle.Timeouts.{LeaseTimeout}
use tricti.Lifecycle.Timeouts.Queue.{InOrder, is_earlier}
use tricti.Lifecycle.Graph.{add_dependency, remove_dependency}
use tricti.Lifecycle.Graph
use tricti.Lifecycle.Graph.{has_cycle}
use tricti.Lifecycle.Graph.Settled.{IsCyclic}
use tricti.Lifecycle.Graph.Cycles.{deps_of, has_cycle_lem}
use tricti.Lifecycle.Graph.Mirror.{is_in, IsMirrored}

abbrev entry : String → ℕ → ℕ → LeaseTimeout
entry name task at = record { resource_name = name; task_id = task; timeout_at = at }

abbrev queue : List LeaseTimeout
queue = entry "World" 1 5 ∷ entry "Input" 2 9 ∷ []

queue-InOrder : InOrder queue
unfolding is_earlier
queue-InOrder = ((refl, tt), (tt, tt))

new-IsMirrored : IsMirrored Graph.new
unfolding Graph.new is_in Graph.set_at Graph.or_empty HashMap.get HashSet.contains
new-IsMirrored x y = refl

-- Two resources that depend on each other, and one that depends on both.
abbrev tangled : Graph.ResourceDependencyGraph
tangled =
    add_dependency (add_dependency (add_dependency Graph.new "Render" "World") "World" "Input")
      "Input" "World"

tangled-cycle : has_cycle tangled ≡ some true
unfolding has_cycle Graph.has_cycle_from Graph.has_cycle_util HashMap.keys add_dependency Graph.new
    HashSet.contains HashMap.get
tangled-cycle = refl

has_cycle_lem_example :
    ((has_cycle tangled ≡ some true) × IsCyclic (deps_of tangled.dependencies))
    ⊎ ((has_cycle tangled ≡ some false) × (¬ IsCyclic (deps_of tangled.dependencies)))
has_cycle_lem_example = has_cycle_lem tangled
