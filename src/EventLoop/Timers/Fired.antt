-- ===== src/EventLoop/Timers/Fired.antt =====
-- src/event_loop_manager.rs: which timers `get_fired_timers` gives out, and in which order.
use mathlib.Core.List.{Perm}
use mathlib.Core.List.Perm
use tricti.Base.{
  ℕ, zero, suc, ◌≤◌, ◌<◌, ◌≡◌, refl, sym, subst, Bool, true, false, Option, none, some, List, [],
  ◌∷◌, ◌++◌, length, All, All-map, if◌then◌else◌, arith, leb,
}
use tricti.Base.BinaryHeap
use tricti.Base.Sort.{IsSorted}
use tricti.Base.BinaryHeap.{Popped, pop-none, pop-Popped}
use tricti.EventLoop.Timers.{ScheduledTimer, TimerManager, at_most, fire, get_fired_timers}

module _ {Event : Type 0} where
  at_most-Popped :
      (timers : List (ScheduledTimer Event)) (t : ScheduledTimer Event)
      (rest : List (ScheduledTimer Event))
      → BinaryHeap.pop at_most timers ≡ some (t, rest)
      → Popped at_most timers t rest
  unfolding at_most
  at_most-Popped timers t rest h =
      pop-Popped at_most (λ x y k. ground (arith, k)) (λ x. ground arith)
        (λ x y z h k. ground (arith, h, k)) timers t rest h

  unfoldable pub is_sooner : ScheduledTimer Event → ScheduledTimer Event → Bool
  is_sooner a b = leb a.fire_time b.fire_time

  pub record Fires (now : ℕ) (timers fired left : List (ScheduledTimer Event)) : Type 0 where
    pub same : Perm (fired ++ left) timers
    pub due : All (λ t. t.fire_time ≤ now) fired
    pub later : All (λ t. now < t.fire_time) left
    pub in_order : IsSorted is_sooner fired
    pub keeps :
        (p : ScheduledTimer Event → Bool)
        → All (λ t. p t ≡ true) timers
        → All (λ t. p t ≡ true) fired

  abbrev FiresBoth :
      ℕ
      → List (ScheduledTimer Event)
      → List (ScheduledTimer Event) × List (ScheduledTimer Event)
      → Type 0
  FiresBoth now timers r = Fires now timers r.0 r.1

  none-Fires :
      (now : ℕ) (timers : List (ScheduledTimer Event))
      → All (λ t. now < t.fire_time) timers
      → Fires now timers [] timers
  none-Fires now timers later = record {
    same = Perm.refl timers;
    due = tt;
    later = later;
    in_order = tt;
    keeps = λ p k. tt;
  }

  one-Fires :
      (now : ℕ) (timers rest fired left : List (ScheduledTimer Event)) (t : ScheduledTimer Event)
      → Popped at_most timers t rest
      → leb t.fire_time now ≡ true
      → Fires now rest fired left
      → Fires now timers (t ∷ fired) left
  unfolding at_most is_sooner
  one-Fires now timers rest fired left t p due f = record {
    same = Perm.trans (Perm.cons t f.same) p.same;
    due = (ground (arith, due), f.due);
    later = f.later;
    in_order = (f.keeps (is_sooner t) (p.keeps (is_sooner t) p.greatest).1, f.in_order);
    keeps = λ q k. ((p.keeps q k).0, f.keeps q (p.keeps q k).1);
  }

  not_before :
      {now : ℕ} (u t : ScheduledTimer Event)
      → at_most u t ≡ true
      → leb t.fire_time now ≡ false
      → now < u.fire_time
  unfolding at_most
  not_before u t k early = ground (arith, k, early)

  fire-Fires :
      (fuel now : ℕ) (timers : List (ScheduledTimer Event))
      → length timers ≤ fuel
      → Fires now timers (fire fuel now timers).0 (fire fuel now timers).1
  unfolding fire
  fire-Fires zero now [] lt = none-Fires now [] tt
  fire-Fires zero now (t ∷ ts) lt = elim lt [ ]
  fire-Fires (suc fuel) now timers lt =
      step (BinaryHeap.pop at_most timers) refl (λ rest k. fire-Fires fuel now rest k)
    where
      round :
          (t : ScheduledTimer Event) (rest : List (ScheduledTimer Event))
          → Popped at_most timers t rest
          → Fires now rest (fire fuel now rest).0 (fire fuel now rest).1
          → (due : Bool) → leb t.fire_time now ≡ due
          → FiresBoth now timers
              (if due then (t ∷ (fire fuel now rest).0, (fire fuel now rest).1) else ([], timers))
      round t rest p f true due = one-Fires now timers rest _ _ t p due f
      round t rest p f false early =
          none-Fires now timers (All-map _ _ (λ u k. not_before u t k early) timers p.greatest)

      step :
          (o : Option (ScheduledTimer Event × List (ScheduledTimer Event)))
          → BinaryHeap.pop at_most timers ≡ o
          → ((rest : List (ScheduledTimer Event))
              → length rest ≤ fuel
              → Fires now rest (fire fuel now rest).0 (fire fuel now rest).1)
          → Fires now timers (fire (suc fuel) now timers).0 (fire (suc fuel) now timers).1
      step none h rec =
          rw (h, fire)
            (none-Fires now timers
              (subst (λ ts. All (λ t. now < t.fire_time) ts) (sym (pop-none at_most timers h)) tt))
      step (some (t, rest)) h rec =
          let p = at_most-Popped timers t rest h in
          rw (h, fire)
            (round t rest p (rec rest (omega (arith, p.shorter))) (leb t.fire_time now) refl)

  -- Exactly the timers whose time has come fire, in the order of their times; all others are left.
  pub get_fired_timers-Fires :
      (now : ℕ) (m : TimerManager Event)
      → Fires now m.timers (get_fired_timers now m).1 (get_fired_timers now m).0.timers
  unfolding get_fired_timers
  get_fired_timers-Fires now m = fire-Fires (length m.timers) now m.timers (omega arith)
