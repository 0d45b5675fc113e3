-- ===== src/Tests/Samples.antt =====
-- Systems and schedulers for the tests.
use tricti.Base.{String, false, none, some, List, [], ◌∷◌}
use tricti.Ast.{identifier, nil, ResourceAccess, immutable, mutable, resource, SystemDef}
use tricti.Scheduler.Conflicts.{ConflictGraph}
use tricti.Scheduler.System.{normal, fcfs, SchedulableSystem, SystemScheduler}
use tricti.Scheduler.Tracker.{ResourceTracker}

abbrev pub definition : String → ResourceAccess → SystemDef
definition name access = record {
  name = name;
  parameters = resource "resource" "db" (identifier "Db" nil) access ∷ [];
  return_type = none;
  is_async = false;
}

abbrev pub registered : SystemDef → List String → SchedulableSystem
registered d deps = record {
  definition = d;
  priority = normal;
  estimated_runtime = some 5;
  dependencies = deps;
  last_execution_time = none;
}

abbrev pub no_access : ResourceTracker
no_access = record { immutable_borrows = []; mutable_borrows = []; owned_resources = [] }

abbrev pub unlinked : ConflictGraph
unlinked = record { edges = []; systems = "reader" ∷ "writer" ∷ [] }

-- A reader and a writer of one resource wait; the writer depends on the reader.
abbrev pub waiting : SystemScheduler
waiting = record {
  systems =
      ("reader", registered (definition "reader" immutable) [])
      ∷ ("writer", registered (definition "writer" mutable) ("reader" ∷ []))
      ∷ [];
  state = record {
    resource_tracker = no_access;
    executing_systems = [];
    pending_systems = "reader" ∷ "writer" ∷ [];
    completed_systems = [];
  };
  conflict_graph = unlinked;
  strategy = fcfs;
  max_concurrent_systems = 2;
  system_priorities = [];
}
