-- ===== src/Lifecycle/Graph/Mirror.antt =====
-- src/resource_lifecycle.rs: the two maps of `ResourceDependencyGraph` against each other.
use tricti.Base.{
  retain, String, ◌≡◌, refl, sym, Bool, not, ◌&&◌, ◌||◌, none, some, Option, List, [], ◌==◌,
  if◌then◌else◌, text_key, eq_iff, arith, inl, inr, Bool-cases,
}
use tricti.Base.HashMap.{HashMap, get-insert, get-modify, get-map_values}
use tricti.Base.HashMap
use mathlib.Core.Option
use tricti.Base.HashSet
use tricti.Base.HashSet.{contains-insert, contains-remove}
use tricti.Lifecycle.Graph.{
  ResourceDependencyGraph, or_empty, set_at, insert_into, remove_from, add_dependency,
  remove_dependency,
}

-- `element` is in the set at `name`.
unfoldable pub is_in : HashMap String (List String) → String → String → Bool
is_in sets name element = HashSet.contains (set_at name sets) element

-- Each dependency has its resource among its dependents, and the other way round.
abbrev pub IsMirrored : ResourceDependencyGraph → Type 0
IsMirrored g = (x y : String) → is_in g.dependencies x y ≡ is_in g.dependents y x

set_at-insert :
    (name x : String) (set : List String) (sets : HashMap String (List String))
    → set_at x (HashMap.insert name set sets) ≡ (if name == x then set else set_at x sets)
unfolding set_at or_empty
set_at-insert name x set sets = ground (arith, get-insert name x set sets)

pub set_at-none :
    (x : String) (sets : HashMap String (List String))
    → HashMap.get x sets ≡ none
    → set_at x sets ≡ []
unfolding set_at or_empty
set_at-none x sets e = rw e refl

or_empty-map :
    (element : String) (o : Option (List String))
    → or_empty (Option.map (HashSet.remove element) o) ≡ HashSet.remove element (or_empty o)
unfolding or_empty HashSet.remove retain
or_empty-map element none = refl
or_empty-map element (some set) = refl

set_at-modify :
    (name element x : String) (sets : HashMap String (List String))
    → set_at x (HashMap.modify name (HashSet.remove element) sets)
      ≡ (if name == x then HashSet.remove element (set_at x sets) else set_at x sets)
unfolding set_at
set_at-modify name element x sets = ground (
  arith,
  get-modify name x (HashSet.remove element) sets,
  or_empty-map element (HashMap.get x sets),
)

pub is_in-insert_into :
    (name element x y : String) (sets : HashMap String (List String))
    → is_in (insert_into name element sets) x y ≡ (is_in sets x y || (name == x && element == y))
unfolding is_in insert_into
is_in-insert_into name element x y sets = elim (Bool-cases (name == x)) [
  | inl same ↦
      rw
        (
          set_at-insert name x (HashSet.insert element (set_at name sets)) sets,
          same,
          (eq_iff name x).0 same,
        )
        (contains-insert (set_at x sets) element y)
  | inr other ↦
      rw (set_at-insert name x (HashSet.insert element (set_at name sets)) sets, other)
        (ground arith)
]

pub is_in-remove_from :
    (name element x y : String) (sets : HashMap String (List String))
    → is_in (remove_from name element sets) x y
      ≡ (is_in sets x y && not (name == x && element == y))
unfolding is_in remove_from
is_in-remove_from name element x y sets = elim (Bool-cases (name == x)) [
  | inl same ↦
      rw (set_at-modify name element x sets, same) (contains-remove (set_at x sets) element y)
  | inr other ↦ rw (set_at-modify name element x sets, other) (ground arith)
]

-- A new empty set changes nothing.
pub is_in-or_insert :
    (name x y : String) (sets : HashMap String (List String))
    → is_in (HashMap.or_insert name [] sets) x y ≡ is_in sets x y
unfolding is_in HashMap.or_insert HashSet.contains
is_in-or_insert name x y sets = added (HashMap.get name sets) refl
  where
    added :
        (o : Option (List String))
        → HashMap.get name sets ≡ o
        → HashSet.contains
            (set_at x (elim o [ none ↦ HashMap.insert name [] sets | some _ ↦ sets ]))
            y
          ≡ HashSet.contains (set_at x sets) y
    added none e = elim (Bool-cases (name == x)) [
      | inl same ↦
          rw
            (
              set_at-insert name x [] sets,
              same,
              sym ((eq_iff name x).0 same),
              set_at-none name sets e,
            )
            refl
      | inr other ↦ rw (set_at-insert name x [] sets, other) refl
    ]
    added (some set) e = refl

pub is_in-clear :
    (name x y : String) (sets : HashMap String (List String))
    → is_in (HashMap.modify name (λ _. []) sets) x y ≡ (is_in sets x y && not (name == x))
unfolding is_in set_at or_empty HashSet.contains
is_in-clear name x y sets = ground (arith, get-modify name x (λ _. []) sets)

pub is_in-map_values :
    (element x y : String) (sets : HashMap String (List String))
    → is_in (HashMap.map_values (HashSet.remove element) sets) x y
      ≡ (is_in sets x y && not (element == y))
unfolding is_in set_at
is_in-map_values element x y sets = ground (
  arith,
  get-map_values x (HashSet.remove element) sets,
  or_empty-map element (HashMap.get x sets),
  contains-remove (or_empty (HashMap.get x sets)) element y,
)

add_dependency-IsMirrored :
    (g : ResourceDependencyGraph) (resource dependency : String)
    → IsMirrored g
    → IsMirrored (add_dependency g resource dependency)
unfolding add_dependency
add_dependency-IsMirrored g resource dependency m x y = ground (
  arith,
  m x y,
  is_in-insert_into resource dependency x y g.dependencies,
  is_in-insert_into dependency resource y x g.dependents,
)

remove_dependency-IsMirrored :
    (g : ResourceDependencyGraph) (resource dependency : String)
    → IsMirrored g
    → IsMirrored (remove_dependency g resource dependency)
unfolding remove_dependency
remove_dependency-IsMirrored g resource dependency m x y = ground (
  arith,
  m x y,
  is_in-remove_from resource dependency x y g.dependencies,
  is_in-remove_from dependency resource y x g.dependents,
)

-- Adding a dependency adds this one edge and no other, and keeps the two maps mirror images.
pub add_dependency_lem :
    (g : ResourceDependencyGraph) (resource dependency : String)
    → IsMirrored g
    → IsMirrored (add_dependency g resource dependency)
      × ((x y : String)
          → is_in (add_dependency g resource dependency).dependencies x y
            ≡ (is_in g.dependencies x y || (resource == x && dependency == y)))
unfolding add_dependency
add_dependency_lem g resource dependency m = (
  add_dependency-IsMirrored g resource dependency m,
  λ x y. is_in-insert_into resource dependency x y g.dependencies,
)

-- Removing a dependency removes this one edge and no other, and keeps the two maps mirror images.
pub remove_dependency_lem :
    (g : ResourceDependencyGraph) (resource dependency : String)
    → IsMirrored g
    → IsMirrored (remove_dependency g resource dependency)
      × ((x y : String)
          → is_in (remove_dependency g resource dependency).dependencies x y
            ≡ (is_in g.dependencies x y && not (resource == x && dependency == y)))
unfolding remove_dependency
remove_dependency_lem g resource dependency m = (
  remove_dependency-IsMirrored g resource dependency m,
  λ x y. is_in-remove_from resource dependency x y g.dependencies,
)
