-- ===== src/Scheduler/Dependencies/Decide.antt =====
-- src/scheduler.rs: the search of `dfs_check_cycle` with enough fuel, and the cycle test.
use tricti.Base.{
  ℕ, zero, suc, ◌≤◌, ◌<◌, String, ◌≡◌, refl, sym, subst, ◌↔◌, ◌⊎◌, inl, inr, Bool, true, false,
  Option, none, some, List, [], length, if◌then◌else◌, ◌==◌, text_key, eq_iff, Bool-cases, ==_refl,
  arith, ◌≢◌,
}
use tricti.Base.HashMap.{HashMap}
use tricti.Base.HashMap
use tricti.Base.HashSet
use tricti.Base.HashSet.{contains-insert}
use tricti.Scheduler.System.{SchedulableSystem}
use tricti.Scheduler.Visited.{unvisited, unvisited-le, unvisited_mono, unvisited-insert}
use tricti.Scheduler.Dependencies.{
  dependencies_of, visit_dependencies, dfs_check_cycle, would_create_cycle,
}
use tricti.Scheduler.Dependencies.Search.{
  Reaches, arrive, via, IsClosed, Explored-refl, Answers, LoopAnswers,
  visit_dependencies-LoopAnswers,
}

dependencies_of-none :
    (systems : HashMap String SchedulableSystem) (c : String)
    → HashMap.get c systems ≡ none
    → dependencies_of systems c ≡ []
unfolding dependencies_of
dependencies_of-none systems c e = rw (e, dependencies_of)

module _ (systems : HashMap String SchedulableSystem) (target : String) where
  abbrev deps_map : String → List String
  deps_map = dependencies_of systems

  finish :
      (v : List String) (c : String) (r : Option (Bool × List String))
      → c ≢ target
      → LoopAnswers deps_map target (HashSet.insert c v) (deps_map c) r
      → Answers deps_map target v c r
  finish v c none ne h = h
  finish v c (some (true, w)) ne (d, m, reach) = via m reach
  finish v c (some (false, w)) ne (x, h) = (
    record {
      extends = λ y m. x.extends y (ground (arith, contains-insert v c y));
      closed = λ y m. closed y (x.closed y m);
    },
    x.extends c (ground (arith, contains-insert v c c, ==_refl c)),
  )
    where
      closed :
          (y : String)
          → (HashSet.contains (HashSet.insert c v) y ≡ true)
            ⊎ ((y ≢ target)
                × ((d : String)
                    → HashSet.contains (deps_map y) d ≡ true
                    → HashSet.contains w d ≡ true))
          → (HashSet.contains v y ≡ true)
            ⊎ ((y ≢ target)
                × ((d : String)
                    → HashSet.contains (deps_map y) d ≡ true
                    → HashSet.contains w d ≡ true))
      closed y (inr p) = inr p
      closed y (inl m) = elim (Bool-cases (c == y)) [
        | inl e ↦ inr (
            subst
              (λ z.
                (z ≢ target)
                × ((d : String)
                    → HashSet.contains (deps_map z) d ≡ true
                    → HashSet.contains w d ≡ true))
              ((eq_iff c y).0 e) (ne, h))
        | inr e ↦ inl (ground (arith, contains-insert v c y))
      ]

  module _ (fuel : ℕ)
      (deeper : (d : String) (w : List String)
        → unvisited w systems < fuel
        → Answers deps_map target w d (dfs_check_cycle fuel systems target d w))
      (c : String) (v : List String) (lt : unvisited v systems ≤ fuel) where
    -- The loop over the dependencies of a system that was not visited; one that is not registered
    -- has none.
    search :
        (o : Option SchedulableSystem)
        → HashMap.get c systems ≡ o
        → HashSet.contains v c ≡ false
        → LoopAnswers deps_map target (HashSet.insert c v) (deps_map c) (
            visit_dependencies
              (dfs_check_cycle fuel systems target)
              (deps_map c)
              (HashSet.insert c v))
    unfolding visit_dependencies HashSet.contains
    search none e new =
        subst
          (λ ds.
            LoopAnswers deps_map target (HashSet.insert c v) ds
              (visit_dependencies (dfs_check_cycle fuel systems target) ds (HashSet.insert c v)))
          (sym (dependencies_of-none systems c e))
          (Explored-refl deps_map target (HashSet.insert c v), λ d h. cc)
    search (some s) e new =
        visit_dependencies-LoopAnswers deps_map target (λ w. unvisited w systems < fuel)
          (λ u w x p. omega (arith, unvisited_mono u w systems x))
          (dfs_check_cycle fuel systems target) deeper (deps_map c) (HashSet.insert c v)
          (omega (arith, unvisited-insert c v systems new s e))

    step :
        ((c == target) ≡ true) ⊎ ((c == target) ≡ false)
        → (HashSet.contains v c ≡ true) ⊎ (HashSet.contains v c ≡ false)
        → Answers deps_map target v c (dfs_check_cycle (suc fuel) systems target c v)
    unfolding dfs_check_cycle
    step (inl e) m = rw e (subst (Reaches deps_map target) (sym ((eq_iff c target).0 e)) arrive)
    step (inr e) (inl m) = rw (e, m) (Explored-refl deps_map target v, m)
    step (inr e) (inr new) =
        rw (e, new)
          (finish v c _ (λ q. ground (arith, eq_iff c target))
            (search (HashMap.get c systems) refl new))

  -- With fuel for every system that is not visited, the search ends and its answer is right.
  dfs_check_cycle-Answers :
      (fuel : ℕ) (c : String) (v : List String)
      → unvisited v systems < fuel
      → Answers deps_map target v c (dfs_check_cycle fuel systems target c v)
  dfs_check_cycle-Answers zero c v lt = elim lt [ ]
  dfs_check_cycle-Answers (suc fuel) c v lt =
      step fuel (λ d w p. dfs_check_cycle-Answers fuel d w p) c v (omega arith)
        (Bool-cases (c == target)) (Bool-cases (HashSet.contains v c))

  -- A visited set that is closed under the dependencies and lacks the target cuts it off.
  closed_unreached :
      {a : String} (w : List String)
      → Reaches deps_map target a
      → IsClosed deps_map target [] w
      → HashSet.contains w a ≡ false
  unfolding HashSet.contains
  closed_unreached w arrive h = elim (Bool-cases (HashSet.contains w target)) [
    | inl m ↦ absurd (outside target (h target m) refl)
    | inr n ↦ n
  ]
    where
      outside :
          (x : String)
          → (false ≡ true)
            ⊎ ((x ≢ target)
                × ((d : String)
                    → HashSet.contains (deps_map x) d ≡ true
                    → HashSet.contains w d ≡ true))
          → x ≢ target
      outside x (inl f) = cc
      outside x (inr p) = p.0
  closed_unreached w (via {a = a} {b = b} m r) h = elim (Bool-cases (HashSet.contains w a)) [
    | inl i ↦ next (h a i) (closed_unreached w r h)
    | inr n ↦ n
  ]
    where
      next :
          (false ≡ true)
            ⊎ ((a ≢ target)
                × ((d : String)
                    → HashSet.contains (deps_map a) d ≡ true
                    → HashSet.contains w d ≡ true))
          → HashSet.contains w b ≡ false
          → HashSet.contains w a ≡ false
      next (inl f) n = cc
      next (inr p) n = ground (arith, p.1 b m)

pub would_create_cycle_iff :
    (systems : HashMap String SchedulableSystem) (from to : String)
    → (would_create_cycle systems from to ≡ true) ↔ Reaches (dependencies_of systems) from to
unfolding would_create_cycle
would_create_cycle_iff systems from to =
    answer (Bool-cases (from == to)) (dfs_check_cycle (suc (length systems)) systems from to []) (
      dfs_check_cycle-Answers systems from (suc (length systems)) to []
        (omega (arith, unvisited-le [] systems)))
  where
    found : Option (Bool × List String) → Bool
    found r = elim r [ none ↦ false | some (b, _) ↦ b ]

    answer :
        ((from == to) ≡ true) ⊎ ((from == to) ≡ false)
        → (r : Option (Bool × List String)) → Answers (dependencies_of systems) from [] to r
        → ((if from == to then true else found r) ≡ true)
          ↔ Reaches (dependencies_of systems) from to
    answer (inl e) r a = (
      (λ _. subst (Reaches (dependencies_of systems) from) ((eq_iff from to).0 e) arrive),
      λ _. rw e,
    )
    answer (inr e) none a = absurd a
    answer (inr e) (some (true, w)) a = ((λ _. a), λ _. rw e)
    answer (inr e) (some (false, w)) (x, m) = (
      (λ h. ground (arith, h, e)),
      λ r. absurd (ground (arith, m, closed_unreached systems from w r x.closed)),
    )
