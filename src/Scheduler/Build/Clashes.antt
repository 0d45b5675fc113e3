-- ===== src/Scheduler/Build/Clashes.antt =====
-- src/scheduler.rs: which edges `build_conflict_graph` adds.
use tricti.Base.{
  String, ◌≡◌, refl, sym, ◌∙◌, ◌≢◌, ◌↔◌, ◌⊎◌, inl, inr, Bool, true, false, false≢true, not, ◌&&◌,
  ◌||◌, Option, none, some, List, [], ◌∷◌, ◌==◌, ok, text_key, eq_iff, Bool-cases, arith,
}
use tricti.Base.HashMap.{HashMap, HasUniqueKeys}
use tricti.Base.HashMap
use tricti.Ast.{SystemDef}
use tricti.Scheduler.Conflicts.{ConflictGraph, has_conflict}
use tricti.Scheduler.Conflicts.Compatible.{AreCompatible}
use tricti.Scheduler.System.{SchedulableSystem, SystemScheduler}
use tricti.Scheduler.Build.{build_rows, build_conflict_graph}
use tricti.Scheduler.Build.Row.{
  clash, clash_iff, clash_symm, clash_with, clash_between, RowSpec, row_graph, build_row-row_graph,
  row_graph-RowSpec,
}

-- The graph after all rows.
rows_graph : ConflictGraph → List (String × SchedulableSystem) → ConflictGraph
rows_graph g [] = g
rows_graph g ((n, x) ∷ rest) = rows_graph (row_graph g n x.definition rest) rest

build_rows-rows_graph :
    (g : ConflictGraph) (rows : List (String × SchedulableSystem))
    → build_rows g rows ≡ ok (rows_graph g rows)
unfolding build_rows rows_graph
build_rows-rows_graph g [] = refl
build_rows-rows_graph g ((n, x) ∷ rest) =
    rw (build_row-row_graph g n x.definition rest)
      (build_rows-rows_graph (row_graph g n x.definition rest) rest)

abbrev RowsSpec : ConflictGraph → List (String × SchedulableSystem) → ConflictGraph → Type 0
RowsSpec g rows g' =
    (a b : String)
    → has_conflict g' a b ≡ (
        has_conflict g a b
        || (not (a == b) && clash_between (HashMap.get a rows) (HashMap.get b rows)))

clash_between-some :
    (o : Option SchedulableSystem) (x : SchedulableSystem)
    → clash_between o (some x) ≡ clash_with x.definition o
clash_between-some none x = refl
clash_between-some (some y) x = clash_symm y.definition x.definition

clash_between-none : (o : Option SchedulableSystem) → clash_between o none ≡ false
clash_between-none none = refl
clash_between-none (some y) = refl

rows_step :
    (g g1 g' : ConflictGraph) (n : String) (x : SchedulableSystem)
    (rest : List (String × SchedulableSystem))
    → HashMap.get n rest ≡ none
    → RowSpec g n x.definition rest g1
    → RowsSpec g1 rest g'
    → RowsSpec g ((n, x) ∷ rest) g'
unfolding HashMap.get
rows_step g g1 g' n x rest absent row rows a b = ground (
  arith,
  row a b,
  rows a b,
  eq_iff n a,
  eq_iff n b,
  eq_iff a b,
  clash_between-some (HashMap.get a rest) x,
  clash_between-none (HashMap.get a rest),
)

rows_graph-RowsSpec :
    (g : ConflictGraph) (rows : List (String × SchedulableSystem))
    → HasUniqueKeys rows
    → RowsSpec g rows (rows_graph g rows)
unfolding rows_graph HashMap.get
rows_graph-RowsSpec g [] u = λ a b. ground arith
rows_graph-RowsSpec g ((n, x) ∷ rest) u =
    rows_step g (row_graph g n x.definition rest) _ n x rest u.0
      (row_graph-RowSpec g n x.definition rest u.1)
      (rows_graph-RowsSpec (row_graph g n x.definition rest) rest u.1)

-- Two systems that clash: they are registered under different names, and some resource that both use
-- is not only read.
abbrev pub Clash : HashMap String SchedulableSystem → String → String → Type 0
Clash systems a b =
    (a ≢ b)
    × (x : SchedulableSystem) × (y : SchedulableSystem) × (HashMap.get a systems ≡ some x)
    × (HashMap.get b systems ≡ some y)
    × ¬ AreCompatible x.definition y.definition

clash-not_compatible : (d1 d2 : SystemDef) → (clash d1 d2 ≡ true) ↔ (¬ AreCompatible d1 d2)
clash-not_compatible d1 d2 = (
  λ h c. false≢true (sym ((clash_iff d1 d2).1 c) ∙ h),
  λ h. elim (Bool-cases (clash d1 d2)) [ inl e ↦ e | inr e ↦ absurd (h ((clash_iff d1 d2).0 e)) ],
)

clash_between_iff :
    (systems : HashMap String SchedulableSystem) (a b : String)
    → ((not (a == b) && clash_between (HashMap.get a systems) (HashMap.get b systems)) ≡ true)
      ↔ Clash systems a b
clash_between_iff systems a b =
    (λ h. found (HashMap.get a systems) (HashMap.get b systems) refl refl h, back)
  where
    found :
        (o p : Option SchedulableSystem)
        → HashMap.get a systems ≡ o
        → HashMap.get b systems ≡ p
        → (not (a == b) && clash_between o p) ≡ true
        → Clash systems a b
    found none p e f h = absurd (ground (arith, h))
    found (some x) none e f h = absurd (ground (arith, h))
    found (some x) (some y) e f h = (
      (λ same. ground (arith, h, eq_iff a b)),
      x,
      y,
      e,
      f,
      (clash-not_compatible x.definition y.definition).0 (ground (arith, h)),
    )

    back :
        Clash systems a b
        → (not (a == b) && clash_between (HashMap.get a systems) (HashMap.get b systems)) ≡ true
    back (ne, x, y, e, f, n) =
        let c = (clash-not_compatible x.definition y.definition).1 n in
        rw (e, f) (ground (arith, c, eq_iff a b))

-- Building the graph succeeds and adds exactly the edges between the systems that clash.
pub build_conflict_graph_lem :
    (s : SystemScheduler) (a b : String)
    → HasUniqueKeys s.systems
    → ((build_conflict_graph s).1 ≡ ok tt)
      × ((has_conflict (build_conflict_graph s).0.conflict_graph a b ≡ true)
          ↔ ((has_conflict s.conflict_graph a b ≡ true) ⊎ Clash s.systems a b))
unfolding build_conflict_graph
build_conflict_graph_lem s a b u =
    rw (build_rows-rows_graph s.conflict_graph s.systems, build_conflict_graph)
      (
        refl,
        (
          λ h. edge (Bool-cases (has_conflict s.conflict_graph a b)) (sym spec ∙ h),
          λ h. spec ∙ back h,
        ),
      )
  where
    between : Bool
    between = not (a == b) && clash_between (HashMap.get a s.systems) (HashMap.get b s.systems)

    spec :
        has_conflict (rows_graph s.conflict_graph s.systems) a b
        ≡ (has_conflict s.conflict_graph a b || between)
    spec = rows_graph-RowsSpec s.conflict_graph s.systems u a b

    edge :
        (has_conflict s.conflict_graph a b ≡ true) ⊎ (has_conflict s.conflict_graph a b ≡ false)
        → (has_conflict s.conflict_graph a b || between) ≡ true
        → (has_conflict s.conflict_graph a b ≡ true) ⊎ Clash s.systems a b
    edge (inl e) h = inl e
    edge (inr e) h = inr ((clash_between_iff s.systems a b).0 (ground (arith, e, h)))

    back :
        (has_conflict s.conflict_graph a b ≡ true) ⊎ Clash s.systems a b
        → (has_conflict s.conflict_graph a b || between) ≡ true
    back (inl e) = ground (arith, e)
    back (inr c) = ground (arith, (clash_between_iff s.systems a b).1 c)
