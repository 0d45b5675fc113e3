-- ===== src/Lifecycle/Manager/Ends.antt =====
-- src/resource_lifecycle.rs: the fuel of `find_cycle_to_task`.
use tricti.Base.{
  ℕ, zero, suc, ◌≤◌, ◌<◌, String, ◌≡◌, ◌≢◌, refl, sym, subst, ◌⊎◌, inl, inr, true, false, not, ◌&&◌,
  Option, none, some, List, [], ◌∷◌, ◌++◌, length, ◌==◌, text_key, eq_iff, Bool-cases, arith,
}
use tricti.Base.HashMap.{HashMap}
use tricti.Base.HashMap
use tricti.Base.HashSet
use tricti.Base.HashSet.{contains-insert, contains-remove}
use tricti.Scheduler.Visited.{unvisited, unvisited-le, unvisited_mono, unvisited-insert}
use tricti.Lifecycle.Graph.{ResourceDependencyGraph, set_at}
use tricti.Lifecycle.Graph.Mirror.{set_at-none}
use tricti.Lifecycle.Manager.{Search, find_in, find_cycle_to_task, first_cycle, detect_deadlock}

-- The two sets have the same elements.
abbrev IsSame : List String → List String → Type 0
IsSame w v = (x : String) → HashSet.contains w x ≡ HashSet.contains v x

-- The search ends, and without a cycle it leaves the visited set as it was.
abbrev Ends : List String → Search → Type 0
Ends v none = ⊥
Ends v (some (none, w)) = IsSame w v
Ends v (some (some cycle, w)) = Unit

-- The loop ends, and without a cycle it takes the current resource out of the visited set.
abbrev LoopEnds : String → List String → Search → Type 0
LoopEnds c v none = ⊥
LoopEnds c v (some (none, w)) =
    (x : String) → HashSet.contains w x ≡ (HashSet.contains v x && not (c == x))
LoopEnds c v (some (some cycle, w)) = Unit

module _ (find : String → List String → Search) (c : String) where
  find_in-LoopEnds :
      (ds v : List String)
      → ((d : String) (w : List String) → IsSame w v → Ends w (find d w))
      → LoopEnds c v (find_in find c ds v)
  unfolding find_in
  find_in-LoopEnds [] v ends = λ x. contains-remove v c x
  find_in-LoopEnds (d ∷ ds) v ends =
      step (find d v) (ends d v (λ x. refl))
        (λ w same. find_in-LoopEnds ds w (λ e u k. ends e u (λ x. ground (arith, k x, same x))))
    where
      more : (w : List String) (r : Search) → IsSame w v → LoopEnds c w r → LoopEnds c v r
      more w none same h = h
      more w (some (none, u)) same h = λ x. ground (arith, h x, same x)
      more w (some (some cycle, u)) same h = tt

      step :
          (r : Search)
          → Ends v r
          → ((w : List String) → IsSame w v → LoopEnds c w (find_in find c ds w))
          → LoopEnds c v (elim r [
            | none ↦ none
            | some (none, w) ↦ find_in find c ds w
            | some (some cycle, w) ↦ some (some (cycle ++ c ∷ []), w)
          ])
      step none h rest = h
      step (some (none, w)) h rest = more w (find_in find c ds w) h (rest w h)
      step (some (some cycle, w)) h rest = tt

module _ (g : ResourceDependencyGraph) where
  leave-Ends :
      (v : List String) (c : String) (r : Search)
      → HashSet.contains v c ≡ false
      → LoopEnds c (HashSet.insert c v) r
      → Ends v r
  leave-Ends v c none new h = h
  leave-Ends v c (some (none, w)) new h =
      λ x. ground (arith, h x, contains-insert v c x, eq_iff c x, new)
  leave-Ends v c (some (some cycle, w)) new h = tt

  module _ (fuel : ℕ)
      (deeper : (d : String) (w : List String)
        → unvisited w g.dependencies < fuel
        → Ends w (find_cycle_to_task fuel g d w))
      (c : String) (v : List String) (lt : unvisited v g.dependencies ≤ fuel) where
    loop :
        (o : Option (List String))
        → HashMap.get c g.dependencies ≡ o
        → HashSet.contains v c ≡ false
        → LoopEnds c
            (HashSet.insert c v)
            (find_in (find_cycle_to_task fuel g) c (set_at c g.dependencies) (HashSet.insert c v))
    unfolding find_in
    loop none e new =
        subst
          (λ ds.
            LoopEnds c (HashSet.insert c v)
              (find_in (find_cycle_to_task fuel g) c ds (HashSet.insert c v)))
          (sym (set_at-none c g.dependencies e)) (λ x. contains-remove (HashSet.insert c v) c x)
    loop (some ds) e new =
        find_in-LoopEnds (find_cycle_to_task fuel g) c (set_at c g.dependencies)
          (HashSet.insert c v)
          (λ d w same. deeper d w (
            omega (
              arith,
              unvisited_mono (HashSet.insert c v) w g.dependencies
                  (λ x m. ground (arith, same x, m)),
              unvisited-insert c v g.dependencies new ds e,
            )))

    entered :
        (HashSet.contains v c ≡ true) ⊎ (HashSet.contains v c ≡ false)
        → Ends v (find_cycle_to_task (suc fuel) g c v)
    unfolding find_cycle_to_task
    entered (inl old) = rw old tt
    entered (inr new) = rw new (leave-Ends v c _ new (loop (HashMap.get c g.dependencies) refl new))

  find_cycle_to_task-Ends :
      (fuel : ℕ) (c : String) (v : List String)
      → unvisited v g.dependencies < fuel
      → Ends v (find_cycle_to_task fuel g c v)
  find_cycle_to_task-Ends zero c v lt = elim lt [ ]
  find_cycle_to_task-Ends (suc fuel) c v lt =
      entered fuel (λ d w p. find_cycle_to_task-Ends fuel d w p) c v (omega arith)
        (Bool-cases (HashSet.contains v c))

  first_cycle_total : (ds : List String) → first_cycle g ds ≢ none
  unfolding first_cycle
  first_cycle_total [] = λ e. cc
  first_cycle_total (d ∷ ds) =
      step (find_cycle_to_task (suc (length g.dependencies)) g d [])
        (find_cycle_to_task-Ends (suc (length g.dependencies)) d []
          (omega (arith, unvisited-le [] g.dependencies)))
        (first_cycle_total ds)
    where
      step :
          (r : Search)
          → Ends [] r
          → first_cycle g ds ≢ none
          → elim r as (λ _. Option (Option (List String))) [
            | none ↦ none
            | some (none, _) ↦ first_cycle g ds
            | some (some cycle, _) ↦ some (some cycle)
          ]
            ≢ none
      step none h rest = absurd h
      step (some (none, w)) h rest = rest
      step (some (some cycle, w)) h rest = λ e. cc

-- The search for a deadlock ends within its fuel on every graph of dependencies, cyclic or not.
pub detect_deadlock_total :
    (g : ResourceDependencyGraph) (resource : String) → detect_deadlock g resource ≢ none
unfolding detect_deadlock
detect_deadlock_total g resource = first_cycle_total g (set_at resource g.dependencies)
