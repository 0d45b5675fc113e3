-- ===== src/Scheduler/Dependencies/Search.antt =====
-- src/scheduler.rs: `dfs_check_cycle` against paths along the dependencies.
use tricti.Base.{
  String, ◌≡◌, ◌⊎◌, inl, inr, Bool, true, false, Option, none, some, List, [], ◌∷◌, if◌then◌else◌,
  text_key, eq_iff, ==_refl, arith, ◌≢◌,
}
use tricti.Base.HashSet
use tricti.Base.HashSet.{contains-insert}
use tricti.Scheduler.Visited.{Extends}
use tricti.Scheduler.Dependencies.{visit_dependencies}

-- `deps` leads from a system to `target` in any number of steps.
pub data Reaches (deps : String → List String) (target : String) : String → Type 0 where
  arrive : Reaches deps target target
  via :
      {a b : String}
      → HashSet.contains (deps a) b ≡ true
      → Reaches deps target b
      → Reaches deps target a

module _ (deps : String → List String) (target : String) where
  -- What was visited on the way from `v` to `w` is not the target, and has its dependencies visited.
  abbrev pub IsClosed : List String → List String → Type 0
  IsClosed v w =
      (x : String)
      → HashSet.contains w x ≡ true
      → (HashSet.contains v x ≡ true)
        ⊎ ((x ≢ target)
            × ((d : String) → HashSet.contains (deps x) d ≡ true → HashSet.contains w d ≡ true))

  pub record Explored (v w : List String) : Type 0 where
    pub extends : Extends v w
    pub closed : IsClosed v w

  pub Explored-refl : (v : List String) → Explored v v
  Explored-refl v = record { extends = λ x h. h; closed = λ x h. inl h }

  Explored-trans : {u v w : List String} → Explored u v → Explored v w → Explored u w
  Explored-trans {u} {v} {w} p q = record {
    extends = λ x h. q.extends x (p.extends x h);
    closed = λ x h. early x (q.closed x h);
  }
    where
      later :
          (x : String)
          → (HashSet.contains u x ≡ true)
            ⊎ ((x ≢ target)
                × ((d : String) → HashSet.contains (deps x) d ≡ true → HashSet.contains v d ≡ true))
          → (HashSet.contains u x ≡ true)
            ⊎ ((x ≢ target)
                × ((d : String) → HashSet.contains (deps x) d ≡ true → HashSet.contains w d ≡ true))
      later x (inl h) = inl h
      later x (inr (ne, h)) = inr (ne, λ d m. q.extends d (h d m))

      early :
          (x : String)
          → (HashSet.contains v x ≡ true)
            ⊎ ((x ≢ target)
                × ((d : String) → HashSet.contains (deps x) d ≡ true → HashSet.contains w d ≡ true))
          → (HashSet.contains u x ≡ true)
            ⊎ ((x ≢ target)
                × ((d : String) → HashSet.contains (deps x) d ≡ true → HashSet.contains w d ≡ true))
      early x (inl h) = later x (p.closed x h)
      early x (inr h) = inr h

  -- What a search from `c` with `v` visited must answer.
  abbrev pub Answers : List String → String → Option (Bool × List String) → Type 0
  Answers v c none = ⊥
  Answers v c (some (true, w)) = Reaches deps target c
  Answers v c (some (false, w)) = Explored v w × (HashSet.contains w c ≡ true)

  -- What the loop over `ds` must answer.
  abbrev pub LoopAnswers : List String → List String → Option (Bool × List String) → Type 0
  LoopAnswers v ds none = ⊥
  LoopAnswers v ds (some (true, w)) =
      (d : String) × (HashSet.contains ds d ≡ true) × Reaches deps target d
  LoopAnswers v ds (some (false, w)) =
      Explored v w × ((d : String) → HashSet.contains ds d ≡ true → HashSet.contains w d ≡ true)

  module _ (P : List String → Type 0) (keep : (v w : List String) → Extends v w → P v → P w)
      (visit : String → List String → Option (Bool × List String))
      (sound : (d : String) (v : List String) → P v → Answers v d (visit d v)) where
    pub visit_dependencies-LoopAnswers :
        (ds v : List String) → P v → LoopAnswers v ds (visit_dependencies visit ds v)
    unfolding visit_dependencies HashSet.contains
    visit_dependencies-LoopAnswers [] v p = (Explored-refl v, λ d h. cc)
    visit_dependencies-LoopAnswers (d ∷ ds) v p =
        step (visit d v) (sound d v p) (λ w q. visit_dependencies-LoopAnswers ds w q)
      where
        more :
            (w : List String) (r : Option (Bool × List String))
            → Explored v w
            → HashSet.contains w d ≡ true
            → LoopAnswers w ds r
            → LoopAnswers v (d ∷ ds) r
        more w none x m h = h
        more w (some (true, u)) x m (d', h, reach) = (d', ground (arith, h), reach)
        more w (some (false, u)) x m (y, h) =
            (Explored-trans x y, λ d' h'. ground (arith, h d', y.extends d m, eq_iff d d'))

        step :
            (r : Option (Bool × List String))
            → Answers v d r
            → ((w : List String) → P w → LoopAnswers w ds (visit_dependencies visit ds w))
            → LoopAnswers v (d ∷ ds) (elim r [
              | none ↦ none
              | some (found, visited') ↦
                  if found then some (true, visited') else visit_dependencies visit ds visited'
            ])
        step none a rest = a
        step (some (true, w)) a rest = (d, ground (arith, ==_refl d), a)
        step (some (false, w)) (x, m) rest =
            more w (visit_dependencies visit ds w) x m (rest w (keep v w x.extends p))
