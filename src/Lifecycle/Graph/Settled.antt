-- ===== src/Lifecycle/Graph/Settled.antt =====
-- src/resource_lifecycle.rs: the invariant of the depth-first search of `has_cycle`, on the resources
-- that it has left and on those of its stack.
use tricti.Base.{
  String, ◌≡◌, refl, sym, subst, ◌⊎◌, inl, inr, true, false, none, some, List, [], ◌∷◌,
  if◌then◌else◌, ◌==◌, text_key, eq_iff, Bool-cases, ==_refl, arith,
}
use tricti.Base.HashSet
use tricti.Base.HashSet.{contains-insert, contains-remove}
use tricti.Scheduler.Visited.{Extends}
use tricti.Scheduler.Dependencies.Search.{Reaches, arrive, via}
use tricti.Lifecycle.Graph.{Found, visit_all, unwind}

module _ (deps : String → List String) where
  -- The resource depends on itself, through one dependency or more.
  abbrev pub IsOnCycle : String → Type 0
  IsOnCycle x = (d : String) × (HashSet.contains (deps x) d ≡ true) × Reaches deps x d

  abbrev pub IsCyclic : Type 0
  IsCyclic = (x : String) × IsOnCycle x

  -- The search has entered the resource and left it again.
  pub record IsLeft (visited stack : List String) (x : String) : Type 0 where
    pub entered : HashSet.contains visited x ≡ true
    pub off : HashSet.contains stack x ≡ false

  pub record Sound (visited stack : List String) : Type 0 where
    pub within : (x : String) → HashSet.contains stack x ≡ true → HashSet.contains visited x ≡ true
    pub closed :
        (x d : String)
        → IsLeft visited stack x
        → HashSet.contains (deps x) d ≡ true
        → IsLeft visited stack d
    pub clean : (x : String) → IsLeft visited stack x → IsOnCycle x → ⊥

  -- What was left stays closed along every path.
  pub Sound-Reaches :
      {visited stack : List String} {target a : String}
      → Sound visited stack
      → Reaches deps target a
      → IsLeft visited stack a
      → IsLeft visited stack target
  Sound-Reaches s arrive l = l
  Sound-Reaches s (via {a = a} {b = b} m r) l = Sound-Reaches s r (s.closed a b l m)

  pub record Settled (v s v' s' : List String) : Type 0 where
    pub extends : Extends v v'
    pub same : (x : String) → HashSet.contains s' x ≡ HashSet.contains s x
    pub sound : Sound v' s'

  -- What the search from `c` must answer.
  abbrev pub Answers : List String → List String → String → Found → Type 0
  Answers v s c none = ⊥
  Answers v s c (some (true, v', s')) = IsCyclic
  Answers v s c (some (false, v', s')) = Settled v s v' s' × IsLeft v' s' c

  -- What the loop over `ds` must answer.
  abbrev pub LoopAnswers : List String → List String → List String → Found → Type 0
  LoopAnswers v s ds none = ⊥
  LoopAnswers v s ds (some (true, v', s')) = IsCyclic
  LoopAnswers v s ds (some (false, v', s')) =
      Settled v s v' s' × ((d : String) → HashSet.contains ds d ≡ true → IsLeft v' s' d)

  -- Entering a resource that was not visited.
  pub enter-Sound :
      (v s : List String) (c : String)
      → HashSet.contains v c ≡ false
      → Sound v s
      → Sound (HashSet.insert c v) (HashSet.insert c s)
  enter-Sound v s c new h = record {
    within = λ x m. ground (arith, contains-insert v c x, contains-insert s c x, h.within x);
    closed = λ x d l m.
        let before = h.closed x d (back x l) m in
        record {
          entered = ground (arith, contains-insert v c d, before.entered);
          off = ground (arith, contains-insert s c d, before.off, before.entered, eq_iff c d, new);
        };
    clean = λ x l. h.clean x (back x l);
  }
    where
      back : (x : String) → IsLeft (HashSet.insert c v) (HashSet.insert c s) x → IsLeft v s x
      back x l = record {
        entered = ground (arith, contains-insert v c x, contains-insert s c x, l.entered, l.off);
        off = ground (arith, contains-insert s c x, l.off);
      }

  -- Leaving the resource, once all of its dependencies were left.
  pub leave-Answers :
      (v s : List String) (c : String) (r : Found)
      → HashSet.contains v c ≡ false
      → HashSet.contains s c ≡ false
      → LoopAnswers (HashSet.insert c v) (HashSet.insert c s) (deps c) r
      → Answers v s c (unwind c r)
  unfolding unwind
  leave-Answers v s c none new off h = h
  leave-Answers v s c (some (true, v', s')) new off h = h
  leave-Answers v s c (some (false, v', s')) new off (h, all) = (
    record {
      extends = λ x m. h.extends x (ground (arith, contains-insert v c x, m));
      same = λ x.
          ground (arith, h.same x, contains-insert s c x, contains-remove s' c x, eq_iff c x, off);
      sound = record {
        within = λ x m. h.sound.within x (ground (arith, contains-remove s' c x, m));
        closed = λ x d l m. elim (Bool-cases (c == x)) [
          | inl e ↦
              keep d
                (all d (subst (λ y. HashSet.contains (deps y) d ≡ true) (sym ((eq_iff c x).0 e)) m))
          | inr e ↦ keep d (h.sound.closed x d (back x e l) m)
        ];
        clean = λ x l k. elim (Bool-cases (c == x)) [
          | inl e ↦ on_no_cycle (subst IsOnCycle (sym ((eq_iff c x).0 e)) k)
          | inr e ↦ h.sound.clean x (back x e l) k
        ];
      };
    },
    record {
      entered = h.extends c (ground (arith, contains-insert v c c, ==_refl c));
      off = ground (arith, contains-remove s' c c, ==_refl c);
    },
  )
    where
      keep : (x : String) → IsLeft v' s' x → IsLeft v' (HashSet.remove c s') x
      keep x l = record { entered = l.entered; off = ground (arith, contains-remove s' c x, l.off) }

      back : (x : String) → (c == x) ≡ false → IsLeft v' (HashSet.remove c s') x → IsLeft v' s' x
      back x e l = record {
        entered = l.entered;
        off = ground (arith, contains-remove s' c x, l.off, e);
      }

      on_no_cycle : IsOnCycle c → ⊥
      on_no_cycle (d, m, r) =
          let l = Sound-Reaches h.sound r (all d m) in
          ground (arith, l.off, h.same c, contains-insert s c c, ==_refl c)

  pub Settled-refl : (v s : List String) → Sound v s → Settled v s v s
  Settled-refl v s h = record { extends = λ x m. m; same = λ x. refl; sound = h }

  Reaches-snoc :
      {c d : String} {x : String}
      → Reaches deps c x
      → HashSet.contains (deps c) d ≡ true
      → Reaches deps d x
  Reaches-snoc arrive m = via m arrive
  Reaches-snoc (via n r) m = via n (Reaches-snoc r m)

  -- Every resource on the stack leads to `c`.
  abbrev pub Leads : List String → String → Type 0
  Leads s c = (x : String) → HashSet.contains s x ≡ true → Reaches deps c x

  module _ (P : List String → Type 0) (keep : (v w : List String) → Extends v w → P v → P w)
      (visit : String → List String → List String → Found)
      (answers : (d : String) (v s : List String)
        → P v
        → HashSet.contains v d ≡ false
        → Sound v s
        → Leads s d
        → Answers v s d (visit d v s))
      (c : String) where
    pub visit_all-LoopAnswers :
        (ds v s : List String)
        → P v
        → Sound v s
        → Leads s c
        → ((d : String) → HashSet.contains ds d ≡ true → HashSet.contains (deps c) d ≡ true)
        → LoopAnswers v s ds (visit_all visit ds v s)
    unfolding visit_all HashSet.contains
    visit_all-LoopAnswers [] v s p h leads edges = (Settled-refl v s h, λ d m. cc)
    visit_all-LoopAnswers (d ∷ ds) v s p h leads edges =
        step (Bool-cases (HashSet.contains v d)) (Bool-cases (HashSet.contains s d))
          (visit_all-LoopAnswers ds v s p h leads later)
          (λ w t q g l. visit_all-LoopAnswers ds w t q g l later)
      where
        edge : HashSet.contains (deps c) d ≡ true
        edge = edges d (ground (arith, ==_refl d))

        later : (x : String) → HashSet.contains ds x ≡ true → HashSet.contains (deps c) x ≡ true
        later x m = edges x (ground (arith, m))

        more :
            (w t : List String) (r : Found)
            → Settled v s w t
            → IsLeft w t d
            → LoopAnswers w t ds r
            → LoopAnswers v s (d ∷ ds) r
        more w t none x l k = k
        more w t (some (true, w', t')) x l k = k
        more w t (some (false, w', t')) x l (y, all) = (
          record {
            extends = λ z m. y.extends z (x.extends z m);
            same = λ z. ground (arith, y.same z, x.same z);
            sound = y.sound;
          },
          λ z m. elim (Bool-cases (d == z)) [
            | inl e ↦
                subst (IsLeft w' t') ((eq_iff d z).0 e) (record {
                  entered = y.extends d l.entered;
                  off = ground (arith, y.same d, l.off);
                })
            | inr e ↦ all z (ground (arith, m, e))
          ],
        )

        visited_one :
            (r : Found)
            → Answers v s d r
            → ((w t : List String)
                → P w
                → Sound w t
                → Leads t c
                → LoopAnswers w t ds (visit_all visit ds w t))
            → LoopAnswers v s (d ∷ ds) (elim r [
              | none ↦ none
              | some (found, w, t) ↦ if found then some (true, w, t) else visit_all visit ds w t
            ])
        visited_one none a rest = a
        visited_one (some (true, w, t)) a rest = a
        visited_one (some (false, w, t)) (x, l) rest =
            more w t (visit_all visit ds w t) x l (
              rest w t (keep v w x.extends p) x.sound
                (λ z m. leads z (ground (arith, x.same z, m))))

        step :
            (HashSet.contains v d ≡ true) ⊎ (HashSet.contains v d ≡ false)
            → (HashSet.contains s d ≡ true) ⊎ (HashSet.contains s d ≡ false)
            → LoopAnswers v s ds (visit_all visit ds v s)
            → ((w t : List String)
                → P w
                → Sound w t
                → Leads t c
                → LoopAnswers w t ds (visit_all visit ds w t))
            → LoopAnswers v s (d ∷ ds) (visit_all visit (d ∷ ds) v s)
        step (inl old) (inl on) skipped rest = rw (old, on) (c, (d, edge, leads d on))
        step (inl old) (inr off) skipped rest =
            rw (old, off)
              (more v s (visit_all visit ds v s) (Settled-refl v s h)
                (record { entered = old; off = off }) skipped)
        step (inr new) m skipped rest = rw new (
            visited_one (visit d v s) (answers d v s p new h (λ x m. Reaches-snoc (leads x m) edge))
              rest)
