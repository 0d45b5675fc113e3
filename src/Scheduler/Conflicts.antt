-- ===== src/Scheduler/Conflicts.antt =====
-- src/scheduler.rs: `extract_resource_accesses`, `check_system_conflict` and `ConflictGraph`.
pub mod Compatible
pub mod Graph
use tricti.Base.{
  String, Bool, true, false, none, some, List, [], ◌∷◌, ◌++◌, map, any, if◌then◌else◌, ◌==◌, ok,
  text_key,
}
use tricti.Base.HashMap.{HashMap}
use tricti.Base.HashMap
use tricti.Base.HashSet
use tricti.Ast.{ResourceAccess, immutable, SystemParameter, resource, SystemDef}
use tricti.Scheduler.Error.{ConflictType, no_conflict, read_write, write_read, write_write, Outcome}

-- The loop of `extract_resource_accesses`.
unfoldable pub insert_accesses :
    HashMap String ResourceAccess → List SystemParameter → HashMap String ResourceAccess
unfolding HashMap.insert
insert_accesses accesses [] = accesses
insert_accesses accesses (resource _ name _ access ∷ params) =
    insert_accesses (HashMap.insert name access accesses) params
insert_accesses accesses (_ ∷ params) = insert_accesses accesses params

unfoldable pub extract_resource_accesses : SystemDef → HashMap String ResourceAccess
unfolding insert_accesses
extract_resource_accesses system = insert_accesses [] system.parameters

-- The `match` on two accesses to one resource; where it continues, there is no conflict.
unfoldable pub access_conflict : ResourceAccess → ResourceAccess → ConflictType
access_conflict immutable immutable = no_conflict
access_conflict immutable _ = read_write
access_conflict _ immutable = write_read
access_conflict _ _ = write_write

-- `conflict != ConflictType::None`
unfoldable pub is_conflict : ConflictType → Bool
is_conflict no_conflict = false
is_conflict _ = true

-- The loop of `check_system_conflict` over the resources of the first system.
unfoldable pub first_conflict :
    HashMap String ResourceAccess → HashMap String ResourceAccess → ConflictType
unfolding access_conflict is_conflict HashMap.get
first_conflict [] resources2 = no_conflict
first_conflict ((resource1, access1) ∷ resources1) resources2 =
    let rest = first_conflict resources1 resources2 in
    elim (HashMap.get resource1 resources2) [
      | none ↦ rest
      | some access2 ↦
          if is_conflict (access_conflict access1 access2)
          then access_conflict access1 access2
          else rest
    ]

unfoldable pub check_system_conflict : SystemDef → SystemDef → Outcome ConflictType
unfolding extract_resource_accesses first_conflict
check_system_conflict system1 system2 =
    ok (first_conflict (extract_resource_accesses system1) (extract_resource_accesses system2))

pub record ConflictGraph : Type 0 where
  pub edges : HashMap String (List (String × ConflictType))
  pub systems : List String

unfoldable pub empty_graph : ConflictGraph
empty_graph = record { edges = []; systems = [] }

unfoldable pub add_graph_system : ConflictGraph → String → ConflictGraph
unfolding HashSet.insert HashMap.or_insert
add_graph_system g system = record g {
  systems = HashSet.insert system g.systems;
  edges = HashMap.or_insert system [] g.edges;
}

-- `edges.entry(system).or_insert_with(Vec::new).push(edge)`
unfoldable pub push_edge :
    String
    → String × ConflictType
    → HashMap String (List (String × ConflictType))
    → HashMap String (List (String × ConflictType))
unfolding HashMap.insert HashMap.get
push_edge system edge edges = elim (HashMap.get system edges) [
  | none ↦ HashMap.insert system (edge ∷ []) edges
  | some conflicts ↦ HashMap.insert system (conflicts ++ edge ∷ []) edges
]

unfoldable pub add_conflict : ConflictGraph → String → String → ConflictType → ConflictGraph
unfolding push_edge is_conflict
add_conflict g system1 system2 conflict =
    if is_conflict conflict
    then record g {
      edges = push_edge system2 (system1, conflict) (push_edge system1 (system2, conflict) g.edges);
    }
    else g

unfoldable pub get_conflicts : ConflictGraph → String → List String
unfolding HashMap.get
get_conflicts g system = elim (HashMap.get system g.edges) [
  | none ↦ []
  | some conflicts ↦ map (λ c. c.0) conflicts
]

unfoldable pub has_conflict : ConflictGraph → String → String → Bool
unfolding HashMap.get any
has_conflict g system1 system2 = elim (HashMap.get system1 g.edges) [
  | none ↦ false
  | some conflicts ↦ any (λ c. c.0 == system2) conflicts
]
