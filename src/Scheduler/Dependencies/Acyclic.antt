-- ===== src/Scheduler/Dependencies/Acyclic.antt =====
-- src/scheduler.rs: the dependency graph as systems and dependencies are registered.
use tricti.Base.{
  ℕ, String, ◌≡◌, sym, subst, ◌⊎◌, inl, inr, true, Option, List, [], ◌∷◌, ok, Result-cases,
  text_key, eq_iff, Bool-cases, Option-cases, false≢true, ◌∙◌, ==_refl, arith,
}
use tricti.Base.HashMap.{HashMap, get-insert, get-modify}
use tricti.Base.HashMap
use tricti.Base.HashSet
use tricti.Base.HashSet.{contains-snoc}
use tricti.Ast.{SystemDef}
use tricti.Scheduler.System.{SystemPriority, SchedulableSystem, SystemScheduler}
use tricti.Scheduler.Validate.{validate_system_resources}
use tricti.Scheduler.Dependencies.{
  dependencies_of, would_create_cycle, push_dependency, enter_graph, add_dependency, store_system,
  add_system, dependencies_exist, dependencies_acyclic, add_system_with_metadata,
}
use tricti.Scheduler.Dependencies.Search.{Reaches, arrive, via}
use tricti.Scheduler.Dependencies.Decide.{would_create_cycle_iff}

-- A system that depends on itself in one or more steps.
abbrev pub Cycle : (String → List String) → Type 0
Cycle deps = (a : String) × (b : String) × (HashSet.contains (deps a) b ≡ true) × Reaches deps a b

abbrev pub IsAcyclic : SystemScheduler → Type 0
IsAcyclic s = ¬ Cycle (dependencies_of s.systems)

Reaches-trans :
    {deps : String → List String} {b c a : String}
    → Reaches deps b a
    → Reaches deps c b
    → Reaches deps c a
Reaches-trans arrive q = q
Reaches-trans (via m p) q = via m (Reaches-trans p q)

-- The graph with one edge more.
module _ (old new : String → List String) (from to : String)
    (edges : (x y : String)
      → HashSet.contains (new x) y ≡ true
      → (HashSet.contains (old x) y ≡ true) ⊎ ((x ≡ from) × (y ≡ to))) where
  split_reach :
      {target a : String}
      → Reaches new target a
      → Reaches old target a ⊎ (Reaches old from a × Reaches old target to)
  split_reach arrive = inl arrive
  split_reach {target} (via {a = a} {b = b} m r) = step (edges a b m) (split_reach r)
    where
      step :
          (HashSet.contains (old a) b ≡ true) ⊎ ((a ≡ from) × (b ≡ to))
          → Reaches old target b ⊎ (Reaches old from b × Reaches old target to)
          → Reaches old target a ⊎ (Reaches old from a × Reaches old target to)
      step (inl e) (inl q) = inl (via e q)
      step (inl e) (inr (q, p)) = inr (via e q, p)
      step (inr (x, y)) (inl q) =
          inr (subst (Reaches old from) (sym x) arrive, subst (Reaches old target) y q)
      step (inr (x, y)) (inr (q, p)) = inr (subst (Reaches old from) (sym x) arrive, p)

  one_edge : ¬ Reaches old from to → ¬ Cycle old → ¬ Cycle new
  one_edge cut acyclic (a, b, m, r) = step (edges a b m) (split_reach r)
    where
      step :
          (HashSet.contains (old a) b ≡ true) ⊎ ((a ≡ from) × (b ≡ to))
          → Reaches old a b ⊎ (Reaches old from b × Reaches old a to)
          → ⊥
      step (inl e) (inl q) = acyclic (a, b, e, q)
      step (inl e) (inr (q, p)) = cut (Reaches-trans p (via e q))
      step (inr (x, y)) (inl q) = cut (subst (λ z. Reaches old z to) x (subst (Reaches old a) y q))
      step (inr (x, y)) (inr (q, p)) = cut (subst (λ z. Reaches old z to) x p)

add_dependency-edges :
    (systems : HashMap String SchedulableSystem) (from to x y : String)
    → HashSet.contains (dependencies_of (HashMap.modify from (push_dependency to) systems) x) y
      ≡ true
    → (HashSet.contains (dependencies_of systems x) y ≡ true) ⊎ ((x ≡ from) × (y ≡ to))
unfolding dependencies_of push_dependency
add_dependency-edges systems from to x y h = elim (Option-cases (HashMap.get x systems)) [
  | inl e ↦ ground (arith, e, get-modify from x (push_dependency to) systems)
  | inr (s, e) ↦ ground (
    arith,
    e,
    get-modify from x (push_dependency to) systems,
    contains-snoc s.dependencies to y,
    eq_iff from x,
    eq_iff to y,
  )
]

-- Adding a dependency keeps the graph acyclic: one that would close a cycle is refused.
pub add_dependency-IsAcyclic :
    (s : SystemScheduler) (dependent dependency : String)
    → IsAcyclic s
    → IsAcyclic (add_dependency s dependent dependency).0
unfolding add_dependency
add_dependency-IsAcyclic s from to h = elim (Bool-cases (would_create_cycle s.systems from to)) [
  | inl e ↦ rw e h
  | inr e ↦ rw e (
      one_edge (dependencies_of s.systems) _ from to (add_dependency-edges s.systems from to)
        (λ r. false≢true (sym e ∙ (would_create_cycle_iff s.systems from to).1 r)) h)
]

-- The graph in which the dependencies of `name` are replaced.
module _ (old new : String → List String) (name : String)
    (others : (x y : String)
      → HashSet.contains (new x) y ≡ true
      → (x ≡ name) ⊎ (HashSet.contains (old x) y ≡ true)) where
  -- A path to `name` need not pass through it before its end.
  reach_name : {a : String} → Reaches new name a → Reaches old name a
  reach_name arrive = arrive
  reach_name (via {a = a} {b = b} m r) = step (others a b m) (reach_name r)
    where
      step :
          (a ≡ name) ⊎ (HashSet.contains (old a) b ≡ true) → Reaches old name b → Reaches old name a
      step (inl e) q = subst (Reaches old name) (sym e) arrive
      step (inr e) q = via e q

  -- Any other path avoids `name` or leaves it by one of the new edges.
  abbrev Leaves : String → Type 0
  Leaves target = (d : String) × (HashSet.contains (new name) d ≡ true) × Reaches new target d

  avoid_name :
      {target a : String}
      → Reaches new target a
      → Reaches old target a ⊎ (Reaches new name a × Leaves target)
  avoid_name arrive = inl arrive
  avoid_name {target} (via {a = a} {b = b} m r) = step (others a b m) (avoid_name r)
    where
      step :
          (a ≡ name) ⊎ (HashSet.contains (old a) b ≡ true)
          → Reaches old target b ⊎ (Reaches new name b × Leaves target)
          → Reaches old target a ⊎ (Reaches new name a × Leaves target)
      step (inl e) q = inr (
        subst (Reaches new name) (sym e) arrive,
        (b, subst (λ z. HashSet.contains (new z) b ≡ true) e m, r),
      )
      step (inr e) (inl q) = inl (via e q)
      step (inr e) (inr (q, l)) = inr (via m q, l)

  replaced :
      ((d : String) → HashSet.contains (new name) d ≡ true → ¬ Reaches old name d)
      → ¬ Cycle old
      → ¬ Cycle new
  replaced cut acyclic (a, b, m, r) = step (others a b m) (avoid_name r)
    where
      step :
          (a ≡ name) ⊎ (HashSet.contains (old a) b ≡ true)
          → Reaches old a b ⊎ (Reaches new name b × Leaves a)
          → ⊥
      step (inl e) q =
          cut b (subst (λ z. HashSet.contains (new z) b ≡ true) e m)
            (reach_name (subst (λ z. Reaches new z b) e r))
      step (inr e) (inl q) = acyclic (a, b, e, q)
      step (inr e) (inr (q, (d, n, p))) = cut d n (reach_name (Reaches-trans p (via m q)))

-- Storing a system gives it the dependencies that are listed and changes no other.
store_system-edges :
    (s : SystemScheduler) (system : SchedulableSystem) (x y : String)
    → HashSet.contains (dependencies_of (store_system s system).systems x) y ≡ true
    → (x ≡ system.definition.name) ⊎ (HashSet.contains (dependencies_of s.systems x) y ≡ true)
unfolding dependencies_of store_system
store_system-edges s system x y h =
    ground
      (arith, get-insert system.definition.name x system s.systems, eq_iff system.definition.name x)

store_system-own :
    (s : SystemScheduler) (system : SchedulableSystem)
    → dependencies_of (store_system s system).systems system.definition.name ≡ system.dependencies
unfolding dependencies_of store_system
store_system-own s system = ground (
  arith,
  get-insert system.definition.name system.definition.name system s.systems,
  ==_refl system.definition.name,
)

dependencies_acyclic_sound :
    (systems : HashMap String SchedulableSystem) (name : String) (deps : List String) (d : String)
    → dependencies_acyclic systems name deps ≡ ok tt
    → HashSet.contains deps d ≡ true
    → ¬ Reaches (dependencies_of systems) name d
unfolding dependencies_acyclic HashSet.contains
dependencies_acyclic_sound systems name [] d h m r = cc
dependencies_acyclic_sound systems name (dep ∷ deps) d h m r = ground (
  arith,
  dependencies_acyclic_sound systems name deps d,
  eq_iff dep d,
  (would_create_cycle_iff systems name d).1 r,
)

store_system-IsAcyclic :
    (s : SystemScheduler) (system : SchedulableSystem)
    → ((d : String)
        → HashSet.contains system.dependencies d ≡ true
        → ¬ Reaches (dependencies_of s.systems) system.definition.name d)
    → IsAcyclic s
    → IsAcyclic (store_system s system)
store_system-IsAcyclic s system cut h =
    replaced (dependencies_of s.systems) _ system.definition.name (store_system-edges s system)
      (λ d m. cut d (subst (λ l. HashSet.contains l d ≡ true) (store_system-own s system) m)) h

-- Registering a system keeps the graph acyclic, also where it replaces one of the same name.
pub add_system-IsAcyclic :
    (s : SystemScheduler) (system : SystemDef) → IsAcyclic s → IsAcyclic (add_system s system).0
unfolding add_system HashSet.contains
add_system-IsAcyclic s system h = elim (Result-cases (validate_system_resources system)) [
  | inl (_, e) ↦
      rw (e, add_system)
        (store_system-IsAcyclic (enter_graph s system.name) _ (λ d m r. cc)
          (unfold enter_graph in h))
  | inr (_, e) ↦ rw (e, add_system) h
]

-- Registering a system with dependencies keeps the graph acyclic, also where it replaces one of the
-- same name that others depend on.
pub add_system_with_metadata-IsAcyclic :
    (s : SystemScheduler) (system : SystemDef) (level : SystemPriority) (runtime : Option ℕ)
    (deps : List String)
    → IsAcyclic s
    → IsAcyclic (add_system_with_metadata s system level runtime deps).0
unfolding add_system_with_metadata enter_graph
add_system_with_metadata-IsAcyclic s system level runtime deps h =
    elim (Result-cases (validate_system_resources system)) [
      | inr (_, e) ↦ rw (e, add_system_with_metadata) h
      | inl (_, e) ↦ elim (Result-cases (dependencies_exist s.systems system.name deps)) [
        | inr (_, x) ↦ rw (e, add_system_with_metadata, x) h
        | inl (_, x) ↦ elim (Result-cases (dependencies_acyclic s.systems system.name deps)) [
          | inr (_, y) ↦ rw (e, add_system_with_metadata, x, y) h
          | inl (tt, y) ↦
              rw (e, add_system_with_metadata, x, y)
                (store_system-IsAcyclic (enter_graph s system.name) _
                  (λ d. dependencies_acyclic_sound s.systems system.name deps d y) h)
        ]
      ]
    ]
