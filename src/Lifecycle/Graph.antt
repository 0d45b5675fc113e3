-- ===== src/Lifecycle/Graph.antt =====
-- src/resource_lifecycle.rs: `ResourceDependencyGraph`, which resource depends on which.
pub mod Mirror
pub mod Settled
pub mod Cycles
use tricti.Base.{
  ℕ, zero, suc, String, Bool, true, false, Option, none, some, List, [], ◌∷◌, length, if◌then◌else◌,
  text_key,
}
use tricti.Base.HashMap.{HashMap}
use tricti.Base.HashMap
use tricti.Base.HashSet

pub record ResourceDependencyGraph : Type 0 where
  pub dependencies : HashMap String (List String)
  pub dependents : HashMap String (List String)
  pub levels : HashMap String ℕ

unfoldable pub new : ResourceDependencyGraph
new = record { dependencies = []; dependents = []; levels = [] }

unfoldable pub or_empty : Option (List String) → List String
or_empty none = []
or_empty (some set) = set

-- The set at a key, empty where there is none.
unfoldable pub set_at : String → HashMap String (List String) → List String
unfolding or_empty
set_at name sets = or_empty (HashMap.get name sets)

-- `sets.entry(name).or_insert_with(HashSet::new).insert(element)`
unfoldable pub insert_into :
    String → String → HashMap String (List String) → HashMap String (List String)
unfolding set_at HashMap.insert HashSet.insert
insert_into name element sets = HashMap.insert name (HashSet.insert element (set_at name sets)) sets

-- `if let Some(set) = sets.get_mut(name) { set.remove(element); }`
unfoldable pub remove_from :
    String → String → HashMap String (List String) → HashMap String (List String)
unfolding HashMap.modify HashSet.remove
remove_from name element sets = HashMap.modify name (HashSet.remove element) sets

unfoldable pub add_dependency : ResourceDependencyGraph → String → String → ResourceDependencyGraph
unfolding insert_into HashMap.or_insert
add_dependency g resource dependency = record {
  dependencies = insert_into resource dependency g.dependencies;
  dependents = insert_into dependency resource g.dependents;
  levels = HashMap.or_insert dependency 0 (HashMap.or_insert resource 0 g.levels);
}

unfoldable pub remove_dependency :
    ResourceDependencyGraph → String → String → ResourceDependencyGraph
unfolding remove_from
remove_dependency g resource dependency = record g {
  dependencies = remove_from resource dependency g.dependencies;
  dependents = remove_from dependency resource g.dependents;
}

-- The answer of the search, the visited set and the recursion stack; `none` is fuel that ran out.
abbrev pub Found : Type 0
Found = Option (Bool × List String × List String)

-- The loop of `has_cycle_util` over the dependencies of one resource; `visit` is the recursive call.
unfoldable pub visit_all :
    (String → List String → List String → Found) → List String → List String → List String → Found
visit_all visit [] visited stack = some (false, visited, stack)
visit_all visit (dep ∷ deps) visited stack =
    let skipped = visit_all visit deps visited stack in
    if HashSet.contains visited dep
    then (if HashSet.contains stack dep then some (true, visited, stack) else skipped)
    else (elim (visit dep visited stack) [
      | none ↦ none
      | some (found, visited', stack') ↦
          if found then some (true, visited', stack') else visit_all visit deps visited' stack'
    ])

-- `recursion_stack.remove(resource)`, once the loop has found no cycle.
unfoldable pub unwind : String → Found → Found
unfolding HashSet.remove
unwind resource none = none
unwind resource (some (true, visited, stack)) = some (true, visited, stack)
unwind resource (some (false, visited, stack)) =
    some (false, visited, HashSet.remove resource stack)

unfoldable pub has_cycle_util :
    ℕ → HashMap String (List String) → String → List String → List String → Found
unfolding visit_all unwind HashSet.insert set_at
has_cycle_util zero dependencies resource visited stack = none
has_cycle_util (suc fuel) dependencies resource visited stack = unwind resource (
    visit_all (has_cycle_util fuel dependencies) (set_at resource dependencies)
      (HashSet.insert resource visited) (HashSet.insert resource stack))

-- The loop of `has_cycle` over the keys.
unfoldable pub has_cycle_from :
    HashMap String (List String) → List String → List String → List String → Option Bool
has_cycle_from dependencies [] visited stack = some false
has_cycle_from dependencies (resource ∷ resources) visited stack =
    let skipped = has_cycle_from dependencies resources visited stack in
    if HashSet.contains visited resource
    then skipped
    else (elim (has_cycle_util (suc (length dependencies)) dependencies resource visited stack) [
      | none ↦ none
      | some (found, visited', stack') ↦
          if found then some true else has_cycle_from dependencies resources visited' stack'
    ])

unfoldable pub has_cycle : ResourceDependencyGraph → Option Bool
has_cycle g = has_cycle_from g.dependencies (HashMap.keys g.dependencies) [] []
