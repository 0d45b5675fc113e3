-- ===== src/Scheduler/Build/Row.antt =====
-- src/scheduler.rs: which edges one row of `build_conflict_graph` adds: one system against those
-- behind it.
use tricti.Base.{
  String, ◌≡◌, refl, sym, ap, ◌∙◌, ◌↔◌, inl, inr, Bool, false, ◌&&◌, ◌||◌, Option, none, some, List,
  [], ◌∷◌, if◌then◌else◌, ◌==◌, ok, text_key, eq_iff, Bool-cases, arith,
}
use tricti.Base.HashMap.{HashMap, HasUniqueKeys}
use tricti.Base.HashMap
use tricti.Ast.{SystemDef}
use tricti.Scheduler.Error.{ConflictType, no_conflict}
use tricti.Scheduler.Conflicts.{
  ConflictGraph, is_conflict, extract_resource_accesses, first_conflict, check_system_conflict,
  add_conflict, has_conflict,
}
use tricti.Scheduler.Conflicts.Compatible.{
  AreCompatible, AreCompatible-symm, check_system_conflict_iff,
}
use tricti.Scheduler.Conflicts.Graph.{has_conflict-add_conflict}
use tricti.Scheduler.System.{SchedulableSystem}
use tricti.Scheduler.Build.{build_row}

-- The two definitions conflict.
unfoldable pub clash : SystemDef → SystemDef → Bool
clash d1 d2 =
    is_conflict (first_conflict (extract_resource_accesses d1) (extract_resource_accesses d2))

pub clash_iff : (d1 d2 : SystemDef) → (clash d1 d2 ≡ false) ↔ AreCompatible d1 d2
unfolding clash check_system_conflict is_conflict
clash_iff d1 d2 = (
  λ h. (check_system_conflict_iff d1 d2).0 (ap ok (nothing _ h)),
  λ h. ground (arith, (check_system_conflict_iff d1 d2).1 h),
)
  where
    nothing : (c : ConflictType) → is_conflict c ≡ false → c ≡ no_conflict
    nothing c h = ground arith

pub clash_symm : (d1 d2 : SystemDef) → clash d1 d2 ≡ clash d2 d1
clash_symm d1 d2 = elim (Bool-cases (clash d1 d2)) [
  | inr e ↦ e ∙ sym ((clash_iff d2 d1).1 (AreCompatible-symm d1 d2 ((clash_iff d1 d2).0 e)))
  | inl e ↦ elim (Bool-cases (clash d2 d1)) [
    | inl x ↦ e ∙ sym x
    | inr x ↦
        absurd (
          ground (arith, e, (clash_iff d1 d2).1 (AreCompatible-symm d2 d1 ((clash_iff d2 d1).0 x))))
  ]
]

-- The definition clashes with that of a registered system.
abbrev pub clash_with : SystemDef → Option SchedulableSystem → Bool
clash_with d none = false
clash_with d (some system) = clash d system.definition

abbrev pub clash_between : Option SchedulableSystem → Option SchedulableSystem → Bool
clash_between none o = false
clash_between (some system) o = clash_with system.definition o

-- The row of one system gives it edges to and from those behind it that it clashes with.
abbrev pub RowSpec :
    ConflictGraph → String → SystemDef → List (String × SchedulableSystem) → ConflictGraph → Type 0
RowSpec g name d rest g' =
    (a b : String)
    → has_conflict g' a b ≡ (
        has_conflict g a b
        || ((name == a && clash_with d (HashMap.get b rest))
            || (name == b && clash_with d (HashMap.get a rest))))

-- The graph after one pair of a row.
abbrev stepped : ConflictGraph → String → SystemDef → String → SchedulableSystem → ConflictGraph
stepped g name d n x =
    let c = first_conflict (extract_resource_accesses d) (extract_resource_accesses x.definition) in
    if is_conflict c then add_conflict g name n c else g

row_step :
    (g g' : ConflictGraph) (name n : String) (d : SystemDef) (x : SchedulableSystem)
    (rest : List (String × SchedulableSystem)) (c : ConflictType)
    → is_conflict c ≡ clash d x.definition
    → HashMap.get n rest ≡ none
    → RowSpec (if is_conflict c then add_conflict g name n c else g) name d rest g'
    → RowSpec g name d ((n, x) ∷ rest) g'
unfolding HashMap.get
row_step g g' name n d x rest c same absent spec a b =
    ground (arith, spec a b, has_conflict-add_conflict g name n a b c, eq_iff n a, eq_iff n b)

-- The graph after a row.
unfoldable pub row_graph :
    ConflictGraph → String → SystemDef → List (String × SchedulableSystem) → ConflictGraph
row_graph g name d [] = g
row_graph g name d ((n, x) ∷ rest) =
    let c = first_conflict (extract_resource_accesses d) (extract_resource_accesses x.definition) in
    row_graph (if is_conflict c then add_conflict g name n c else g) name d rest

pub build_row-row_graph :
    (g : ConflictGraph) (name : String) (d : SystemDef) (rest : List (String × SchedulableSystem))
    → build_row g name d rest ≡ ok (row_graph g name d rest)
unfolding build_row row_graph check_system_conflict
build_row-row_graph g name d [] = refl
build_row-row_graph g name d ((n, x) ∷ rest) =
    build_row-row_graph (stepped g name d n x) name d rest

pub row_graph-RowSpec :
    (g : ConflictGraph) (name : String) (d : SystemDef) (rest : List (String × SchedulableSystem))
    → HasUniqueKeys rest
    → RowSpec g name d rest (row_graph g name d rest)
unfolding row_graph HashMap.get clash
row_graph-RowSpec g name d [] u = λ a b. ground arith
row_graph-RowSpec g name d ((n, x) ∷ rest) u =
    row_step g _ name n d x rest _ refl u.0
      (row_graph-RowSpec (stepped g name d n x) name d rest u.1)
