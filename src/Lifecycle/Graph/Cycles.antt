-- ===== src/Lifecycle/Graph/Cycles.antt =====
-- src/resource_lifecycle.rs: `has_cycle` against paths along the dependencies.
use tricti.Base.{
  ℕ, zero, suc, ◌≤◌, ◌<◌, String, ◌≡◌, refl, sym, subst, ◌⊎◌, inl, inr, Bool, true, false, Option,
  none, some, List, [], ◌∷◌, length, if◌then◌else◌, ◌==◌, text_key, eq_iff, Bool-cases, arith,
}
use tricti.Base.HashMap.{HashMap}
use tricti.Base.HashMap
use tricti.Base.HashSet
use tricti.Base.HashSet.{contains-insert}
use tricti.Scheduler.Visited.{unvisited, unvisited-le, unvisited_mono, unvisited-insert}
use tricti.Scheduler.Dependencies.Search.{Reaches, arrive}
use tricti.Lifecycle.Graph.{
  ResourceDependencyGraph, set_at, Found, visit_all, has_cycle_util, has_cycle_from, has_cycle,
}
use tricti.Lifecycle.Graph.Mirror.{set_at-none}
use tricti.Lifecycle.Graph.Settled.{
  IsOnCycle, IsCyclic, Sound, Settled-refl, Answers, LoopAnswers, Leads, enter-Sound, leave-Answers,
  visit_all-LoopAnswers,
}

module _ (g : HashMap String (List String)) where
  abbrev pub deps_of : String → List String
  deps_of x = set_at x g

  module _ (fuel : ℕ)
      (deeper : (d : String) (v s : List String)
        → unvisited v g < fuel
        → HashSet.contains v d ≡ false
        → Sound deps_of v s
        → Leads deps_of s d
        → Answers deps_of v s d (has_cycle_util fuel g d v s))
      (c : String) (v s : List String) (lt : unvisited v g ≤ fuel)
      (new : HashSet.contains v c ≡ false) (h : Sound deps_of v s) (leads : Leads deps_of s c) where
    entered-Leads : Leads deps_of (HashSet.insert c s) c
    entered-Leads x m = elim (Bool-cases (c == x)) [
      | inl e ↦ subst (Reaches deps_of c) ((eq_iff c x).0 e) arrive
      | inr e ↦ leads x (ground (arith, contains-insert s c x, m, e))
    ]

    -- The loop over the dependencies; a resource that is no key has none.
    loop :
        (o : Option (List String))
        → HashMap.get c g ≡ o
        → LoopAnswers deps_of (HashSet.insert c v) (HashSet.insert c s) (deps_of c) (
            visit_all (has_cycle_util fuel g) (deps_of c) (HashSet.insert c v) (HashSet.insert c s))
    unfolding visit_all HashSet.contains
    loop none e =
        subst
          (λ ds.
            LoopAnswers deps_of (HashSet.insert c v) (HashSet.insert c s) ds
              (visit_all (has_cycle_util fuel g) ds (HashSet.insert c v) (HashSet.insert c s)))
          (sym (set_at-none c g e))
          (
            Settled-refl deps_of (HashSet.insert c v) (HashSet.insert c s)
                (enter-Sound deps_of v s c new h),
            λ d m. cc,
          )
    loop (some ds) e =
        visit_all-LoopAnswers deps_of (λ w. unvisited w g < fuel)
          (λ u w x p. omega (arith, unvisited_mono u w g x)) (has_cycle_util fuel g) deeper c
          (deps_of c) (HashSet.insert c v) (HashSet.insert c s)
          (omega (arith, unvisited-insert c v g new ds e)) (enter-Sound deps_of v s c new h)
          entered-Leads (λ d m. m)

    entered : Answers deps_of v s c (has_cycle_util (suc fuel) g c v s)
    unfolding has_cycle_util
    entered = leave-Answers deps_of v s c _ new off (loop (HashMap.get c g) refl)
      where
        off : HashSet.contains s c ≡ false
        off = elim (Bool-cases (HashSet.contains s c)) [
          | inl m ↦ absurd (ground (arith, h.within c m, new))
          | inr n ↦ n
        ]

  has_cycle_util-Answers :
      (fuel : ℕ) (c : String) (v s : List String)
      → unvisited v g < fuel
      → HashSet.contains v c ≡ false
      → Sound deps_of v s
      → Leads deps_of s c
      → Answers deps_of v s c (has_cycle_util fuel g c v s)
  has_cycle_util-Answers zero c v s lt new h leads = elim lt [ ]
  has_cycle_util-Answers (suc fuel) c v s lt new h leads =
      entered fuel (λ d w t p n k l. has_cycle_util-Answers fuel d w t p n k l) c v s (omega arith)
        new h leads

  -- What the loop over the keys must answer.
  abbrev FromAnswers : List String → Option Bool → Type 0
  FromAnswers ks none = ⊥
  FromAnswers ks (some true) = IsCyclic deps_of
  FromAnswers ks (some false) =
      (k : String) → HashSet.contains ks k ≡ true → IsOnCycle deps_of k → ⊥

  has_cycle_from-FromAnswers :
      (ks v s : List String)
      → Sound deps_of v s
      → ((x : String) → HashSet.contains s x ≡ false)
      → FromAnswers ks (has_cycle_from g ks v s)
  unfolding has_cycle_from HashSet.contains
  has_cycle_from-FromAnswers [] v s h empty = λ k m. cc
  has_cycle_from-FromAnswers (c ∷ ks) v s h empty =
      step (Bool-cases (HashSet.contains v c)) (has_cycle_from-FromAnswers ks v s h empty)
        (λ w t k e. has_cycle_from-FromAnswers ks w t k e)
    where
      more :
          (o : Option Bool) → (IsOnCycle deps_of c → ⊥) → FromAnswers ks o → FromAnswers (c ∷ ks) o
      more none n a = a
      more (some true) n a = a
      more (some false) n a = λ k m. elim (Bool-cases (c == k)) [
        | inl e ↦ λ y. n (subst (IsOnCycle deps_of) (sym ((eq_iff c k).0 e)) y)
        | inr e ↦ a k (ground (arith, m, e))
      ]

      searched :
          (r : Found)
          → Answers deps_of v s c r
          → ((w t : List String)
              → Sound deps_of w t
              → ((x : String) → HashSet.contains t x ≡ false)
              → FromAnswers ks (has_cycle_from g ks w t))
          → FromAnswers (c ∷ ks) (elim r [
            | none ↦ none
            | some (found, w, t) ↦ if found then some true else has_cycle_from g ks w t
          ])
      searched none a rest = a
      searched (some (true, w, t)) a rest = a
      searched (some (false, w, t)) (x, l) rest =
          more (has_cycle_from g ks w t) (λ y. x.sound.clean c l y)
            (rest w t x.sound (λ z. ground (arith, x.same z, empty z)))

      step :
          (HashSet.contains v c ≡ true) ⊎ (HashSet.contains v c ≡ false)
          → FromAnswers ks (has_cycle_from g ks v s)
          → ((w t : List String)
              → Sound deps_of w t
              → ((x : String) → HashSet.contains t x ≡ false)
              → FromAnswers ks (has_cycle_from g ks w t))
          → FromAnswers (c ∷ ks) (has_cycle_from g (c ∷ ks) v s)
      step (inl old) skipped rest = rw old (
          more (has_cycle_from g ks v s)
            (λ y. h.clean c (record { entered = old; off = empty c }) y) skipped)
      step (inr new) skipped rest = rw new (
          searched (has_cycle_util (suc (length g)) g c v s)
            (has_cycle_util-Answers (suc (length g)) c v s (omega (arith, unvisited-le v g)) new h
              (λ x m. ground (arith, m, empty x)))
            rest)

-- A resource that depends on another is a key.
key_of-deps :
    (g : HashMap String (List String)) (x d : String)
    → HashSet.contains (set_at x g) d ≡ true
    → HashSet.contains (HashMap.keys g) x ≡ true
unfolding HashMap.keys HashSet.contains HashMap.get set_at
key_of-deps [] x d m = cc
key_of-deps ((k, ds) ∷ g) x d m = elim (Bool-cases (k == x)) [
  | inl e ↦ rw e refl
  | inr e ↦ rw e (key_of-deps g x d (ground (arith, m, e)))
]

-- The test for cycles ends within its fuel, and answers true exactly where a resource depends on
-- itself through one dependency or more, whatever the order of the maps.
pub has_cycle_lem :
    (g : ResourceDependencyGraph)
    → ((has_cycle g ≡ some true) × IsCyclic (deps_of g.dependencies))
      ⊎ ((has_cycle g ≡ some false) × (¬ IsCyclic (deps_of g.dependencies)))
unfolding has_cycle HashSet.contains
has_cycle_lem g = answer (has_cycle g) refl (
    has_cycle_from-FromAnswers g.dependencies (HashMap.keys g.dependencies) [] [] start (λ x. refl))
  where
    start : Sound (deps_of g.dependencies) [] []
    start = record {
      within = λ x m. cc;
      closed = λ x d l m. absurd (ground (arith, l.entered));
      clean = λ x l c. ground (arith, l.entered);
    }

    answer :
        (o : Option Bool)
        → has_cycle g ≡ o
        → FromAnswers g.dependencies (HashMap.keys g.dependencies) o
        → ((has_cycle g ≡ some true) × IsCyclic (deps_of g.dependencies))
          ⊎ ((has_cycle g ≡ some false) × (¬ IsCyclic (deps_of g.dependencies)))
    answer none e a = absurd a
    answer (some true) e a = inl (e, a)
    answer (some false) e a = inr (e, λ (x, c). a x (key_of-deps g.dependencies x c.0 c.1) c)
