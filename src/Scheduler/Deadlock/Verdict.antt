-- ===== src/Scheduler/Deadlock/Verdict.antt =====
-- src/scheduler.rs: what `detect_deadlocks` decides on the graphs that the scheduler builds.
use tricti.Base.{
  ℕ, zero, suc, ◌<◌, String, ◌≡◌, refl, subst, ◌∙◌, ◌≢◌, ◌⊎◌, inl, inr, Bool, true, false, Option,
  none, some, List, [], ◌∷◌, any, length, ◌==◌, ok, err, text_key, eq_iff, All, Bool-cases,
  Option-cases, ==_refl, arith,
}
use tricti.Base.Result.{Result}
use tricti.Base.HashMap
use tricti.Base.HashSet
use tricti.Base.HashSet.{contains-insert}
use tricti.Scheduler.Error.{ConflictType, SchedulerError, deadlock_detected}
use tricti.Scheduler.Conflicts.{ConflictGraph, has_conflict}
use tricti.Scheduler.Conflicts.Graph.{IsSymmetric}
use tricti.Scheduler.Visited.{unvisited, unvisited-le, unvisited-insert}
use tricti.Scheduler.Deadlock.{
  Walk, enter, leave, visit_conflicts, backtrack, conflicts_of, dfs_cycle_detection, detect_from,
  detect_deadlocks,
}

nil_cases {ℓ} : {A : Type ℓ} (xs : List A) → (xs ≡ []) ⊎ (xs ≢ [])
nil_cases [] = inl refl
nil_cases (x ∷ xs) = inr (λ e. cc)

module _ (g : ConflictGraph) (symmetric : IsSymmetric g) where
  has_conflict-first :
      (a b : String) (c : ConflictType) (cs : List (String × ConflictType))
      → conflicts_of g a ≡ (b, c) ∷ cs
      → has_conflict g a b ≡ true
  unfolding has_conflict conflicts_of any
  has_conflict-first a b c cs e = elim (Option-cases (HashMap.get a g.edges)) [
    | inl x ↦ absurd (ground (arith, x, e))
    | inr (l, x) ↦ ground (arith, x, e, ==_refl b)
  ]

  conflicts_of-ne-nil : (a b : String) → has_conflict g a b ≡ true → conflicts_of g a ≢ []
  unfolding has_conflict conflicts_of any
  conflicts_of-ne-nil a b h e = elim (Option-cases (HashMap.get a g.edges)) [
    | inl x ↦ ground (arith, x, h)
    | inr (l, x) ↦ ground (arith, x, e, h)
  ]

  connected :
      (a b : String) (c : ConflictType) (cs : List (String × ConflictType))
      → conflicts_of g a ≡ (b, c) ∷ cs
      → conflicts_of g b ≢ []
  connected a b c cs e = conflicts_of-ne-nil b a (symmetric b a ∙ has_conflict-first a b c cs e)

  -- What was visited is on the stack, or has no conflicts.
  abbrev IsOpen : Walk → Type 0
  IsOpen w =
      (x : String)
      → HashSet.contains w.visited x ≡ true
      → (HashSet.contains w.rec_stack x ≡ true) ⊎ (conflicts_of g x ≡ [])

  abbrev Finds : Option (Bool × Walk) → Type 0
  Finds none = ⊥
  Finds (some (found, w)) = found ≡ true

  enter-IsOpen : (x : String) (w : Walk) → IsOpen w → IsOpen (enter x w)
  unfolding enter
  enter-IsOpen x w h y m =
      ground (arith, m, h y, contains-insert w.visited x y, contains-insert w.rec_stack x y)

  backtrack-Finds : (x : String) (r : Option (Bool × Walk)) → Finds r → Finds (backtrack x r)
  unfolding backtrack
  backtrack-Finds x none h = h
  backtrack-Finds x (some (true, w)) h = h
  backtrack-Finds x (some (false, w)) h = cc

  registered_of_conflicts :
      (x n : String) (c : ConflictType) (cs : List (String × ConflictType))
      → conflicts_of g x ≡ (n, c) ∷ cs
      → (l : List (String × ConflictType)) × (HashMap.get x g.edges ≡ some l)
  unfolding conflicts_of
  registered_of_conflicts x n c cs e = elim (Option-cases (HashMap.get x g.edges)) [
    | inl h ↦ absurd (ground (arith, h, e))
    | inr (l, h) ↦ (l, h)
  ]

  -- Already the first neighbour closes a cycle, or leads to one.
  first_neighbor-Finds :
      (visit : String → Walk → Option (Bool × Walk)) (n : String) (c : ConflictType)
      (cs : List (String × ConflictType)) (w : Walk)
      → IsOpen w
      → conflicts_of g n ≢ []
      → (HashSet.contains w.visited n ≡ false → Finds (visit n w))
      → Finds (visit_conflicts visit ((n, c) ∷ cs) w)
  unfolding visit_conflicts
  first_neighbor-Finds visit n c cs w open_walk ne deeper =
      elim (Bool-cases (HashSet.contains w.visited n)) [
        | inr new ↦ rw (new, visit_conflicts) (found (visit n w) (deeper new))
        | inl old ↦ rw (old, visit_conflicts, stacked (open_walk n old))
      ]
    where
      found :
          (r : Option (Bool × Walk))
          → Finds r
          → Finds (elim r [
            | none ↦ none
            | some (b, w') ↦ elim b [ true ↦ some (true, w') | false ↦ visit_conflicts visit cs w' ]
          ])
      found none h = h
      found (some (true, w')) h = refl
      found (some (false, w')) h = cc

      stacked :
          (HashSet.contains w.rec_stack n ≡ true) ⊎ (conflicts_of g n ≡ [])
          → HashSet.contains w.rec_stack n ≡ true
      stacked (inl h) = h
      stacked (inr h) = absurd (ne h)

  entered_fewer :
      (x : String) (w : Walk) (fuel : ℕ) (l : List (String × ConflictType))
      → HashSet.contains w.visited x ≡ false
      → HashMap.get x g.edges ≡ some l
      → unvisited w.visited g.edges < suc fuel
      → unvisited (enter x w).visited g.edges < fuel
  unfolding enter
  entered_fewer x w fuel l new registered lt =
      omega (arith, unvisited-insert x w.visited g.edges new l registered)

  finds :
      (fuel : ℕ) (x : String) (w : Walk) (n : String) (c : ConflictType)
      (cs : List (String × ConflictType))
      → unvisited w.visited g.edges < suc fuel
      → HashSet.contains w.visited x ≡ false
      → IsOpen w
      → conflicts_of g x ≡ (n, c) ∷ cs
      → (unvisited (enter x w).visited g.edges < fuel
          → HashSet.contains (enter x w).visited n ≡ false
          → IsOpen (enter x w)
          → conflicts_of g n ≢ []
          → Finds (dfs_cycle_detection fuel g n (enter x w)))
      → Finds (dfs_cycle_detection (suc fuel) g x w)
  unfolding dfs_cycle_detection
  finds fuel x w n c cs lt new open_walk e deeper =
      let (l, registered) = registered_of_conflicts x n c cs e in
      let ne = connected x n c cs e in
      let entered = enter-IsOpen x w open_walk in
      rw e (
        backtrack-Finds x _ (
          first_neighbor-Finds (dfs_cycle_detection fuel g) n c cs (enter x w) entered ne
            (λ h. deeper (fewer l registered) h entered ne)))
    where
      fewer :
          (l : List (String × ConflictType))
          → HashMap.get x g.edges ≡ some l
          → unvisited (enter x w).visited g.edges < fuel
      fewer l registered = entered_fewer x w fuel l new registered lt

  dfs_cycle_detection-Finds :
      (fuel : ℕ) (x : String) (w : Walk)
      → unvisited w.visited g.edges < fuel
      → HashSet.contains w.visited x ≡ false
      → IsOpen w
      → conflicts_of g x ≢ []
      → Finds (dfs_cycle_detection fuel g x w)
  dfs_cycle_detection-Finds zero x w lt new open_walk ne = elim lt [ ]
  dfs_cycle_detection-Finds (suc fuel) x w lt new open_walk ne =
      step (conflicts_of g x) refl (λ n h. dfs_cycle_detection-Finds fuel n (enter x w) h)
    where
      step :
          (l : List (String × ConflictType))
          → conflicts_of g x ≡ l
          → ((n : String)
              → unvisited (enter x w).visited g.edges < fuel
              → HashSet.contains (enter x w).visited n ≡ false
              → IsOpen (enter x w)
              → conflicts_of g n ≢ []
              → Finds (dfs_cycle_detection fuel g n (enter x w)))
          → Finds (dfs_cycle_detection (suc fuel) g x w)
      step [] e deeper = absurd (ne e)
      step ((n, c) ∷ cs) e deeper = finds fuel x w n c cs lt new open_walk e (deeper n)

  -- A system without conflicts is only marked as visited.
  dfs_cycle_detection-alone :
      (fuel : ℕ) (x : String) (w : Walk)
      → conflicts_of g x ≡ []
      → dfs_cycle_detection (suc fuel) g x w ≡ some (false, leave x (enter x w))
  unfolding dfs_cycle_detection visit_conflicts backtrack
  dfs_cycle_detection-alone fuel x w e = rw e

  -- Between two systems of the outer loop, only systems without conflicts were visited.
  abbrev IsIdle : Walk → Type 0
  IsIdle w = (x : String) → HashSet.contains w.visited x ≡ true → conflicts_of g x ≡ []

  leave-IsIdle :
      (x : String) (w : Walk) → conflicts_of g x ≡ [] → IsIdle w → IsIdle (leave x (enter x w))
  unfolding leave enter
  leave-IsIdle x w e h y m = elim (Bool-cases (x == y)) [
    | inl same ↦ subst (λ z. conflicts_of g z ≡ []) ((eq_iff x y).0 same) e
    | inr other ↦ h y (ground (arith, m, other, contains-insert w.visited x y))
  ]

  abbrev pub Verdict : List String → Option (Result SchedulerError (Unit {0})) → Type 0
  Verdict systems r =
      (All (λ x. conflicts_of g x ≡ []) systems × (r ≡ some (ok tt)))
      ⊎ ((x : String) × (HashSet.contains systems x ≡ true)
          × (conflicts_of g x ≢ [])
          × (cycle : List String) × (r ≡ some (err (deadlock_detected cycle))))

  Verdict-cons :
      (x : String) (xs : List String) (r : Option (Result SchedulerError (Unit {0})))
      → conflicts_of g x ≡ []
      → Verdict xs r
      → Verdict (x ∷ xs) r
  unfolding HashSet.contains
  Verdict-cons x xs r e (inl (h, v)) = inl ((e, h), v)
  Verdict-cons x xs r e (inr (y, m, ne, cycle, v)) = inr (y, ground (arith, m), ne, cycle, v)

  detect_from-found :
      (fuel : ℕ) (x : String) (xs : List String) (w : Walk)
      → HashSet.contains w.visited x ≡ false
      → Finds (dfs_cycle_detection fuel g x w)
      → (cycle : List String) × (detect_from fuel g (x ∷ xs) w
          ≡ some (err (deadlock_detected cycle)))
  unfolding detect_from
  detect_from-found fuel x xs w new finds = elim (Option-cases (dfs_cycle_detection fuel g x w)) [
    | inl e ↦ absurd (subst Finds e finds)
    | inr ((found, w'), e) ↦
        let yes_found : found ≡ true = subst Finds e finds in
        (w'.path, rw (new, detect_from, e, yes_found))
  ]

  detect_from-Verdict :
      (fuel : ℕ) (systems : List String) (w : Walk)
      → length g.edges < suc fuel
      → IsIdle w
      → Verdict systems (detect_from (suc fuel) g systems w)
  unfolding detect_from HashSet.contains
  detect_from-Verdict fuel [] w lt idle = inl (tt, refl)
  detect_from-Verdict fuel (x ∷ systems) w lt idle =
      elim (Bool-cases (HashSet.contains w.visited x)) [
        | inl old ↦
            rw (old, detect_from)
              (Verdict-cons x systems _ (idle x old) (detect_from-Verdict fuel systems w lt idle))
        | inr new ↦ elim (nil_cases (conflicts_of g x)) [
          | inl e ↦
              rw (new, detect_from, dfs_cycle_detection-alone fuel x w e)
                (Verdict-cons x systems _ e (
                  detect_from-Verdict fuel systems (leave x (enter x w)) lt
                    (leave-IsIdle x w e idle)))
          | inr ne ↦
              let finds =
                dfs_cycle_detection-Finds (suc fuel) x w
                  (omega (arith, unvisited-le w.visited g.edges)) new (λ y m. inr (idle y m)) ne in
              let (cycle, v) = detect_from-found (suc fuel) x systems w new finds in
              inr (x, ground (arith, ==_refl x), ne, cycle, v)
        ]
      ]

  -- On a graph that records each conflict at both ends, the deadlock test always ends. It passes where
  -- no system of the graph has a conflict, and reports a deadlock where some system has one.
  pub detect_deadlocks-Verdict : Verdict g.systems (detect_deadlocks g)
  unfolding detect_deadlocks HashSet.contains
  detect_deadlocks-Verdict =
      detect_from-Verdict (length g.edges) g.systems
        (record { visited = []; rec_stack = []; path = [] }) (omega arith) (λ x m. cc)
