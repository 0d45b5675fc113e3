-- ===== src/Scheduler/Conflicts/Compatible.antt =====
-- src/scheduler.rs: which pairs of systems `check_system_conflict` finds free of conflicts.
use tricti.Base.{
  String, ◌≡◌, refl, ◌∙◌, sym, ap, subst, ◌↔◌, inl, inr, true, false, Option, none, some, List, [],
  ◌∷◌, arith, ◌==◌, ok, text_key, eq_iff, Bool-cases, ==_refl,
}
use tricti.Base.HashMap.{HashMap, HasUniqueKeys, insert-HasUniqueKeys}
use tricti.Base.HashMap
use tricti.Ast.{ResourceAccess, immutable, SystemParameter, query, resource, regular, SystemDef}
use tricti.Scheduler.Error.{no_conflict}
use tricti.Scheduler.Conflicts.{
  insert_accesses, extract_resource_accesses, access_conflict, is_conflict, first_conflict,
  check_system_conflict,
}

-- A resource that both use is only read by both.
abbrev pub BothRead : Option ResourceAccess → Option ResourceAccess → Type 0
BothRead none b = Unit {0}
BothRead (some a) none = Unit {0}
BothRead (some a) (some b) = (a ≡ immutable) × (b ≡ immutable)

abbrev MapsCompatible : HashMap String ResourceAccess → HashMap String ResourceAccess → Type 0
MapsCompatible m1 m2 = (r : String) → BothRead (HashMap.get r m1) (HashMap.get r m2)

abbrev pub AreCompatible : SystemDef → SystemDef → Type 0
AreCompatible system1 system2 =
    MapsCompatible (extract_resource_accesses system1) (extract_resource_accesses system2)

insert_accesses-HasUniqueKeys :
    (m : HashMap String ResourceAccess) (ps : List SystemParameter)
    → HasUniqueKeys m
    → HasUniqueKeys (insert_accesses m ps)
unfolding insert_accesses
insert_accesses-HasUniqueKeys m [] u = u
insert_accesses-HasUniqueKeys m (resource _ name _ access ∷ ps) u =
    insert_accesses-HasUniqueKeys (HashMap.insert name access m) ps
      (insert-HasUniqueKeys name access m u)
insert_accesses-HasUniqueKeys m (query _ ∷ ps) u = insert_accesses-HasUniqueKeys m ps u
insert_accesses-HasUniqueKeys m (regular _ _ _ ∷ ps) u = insert_accesses-HasUniqueKeys m ps u

pub extract_resource_accesses-HasUniqueKeys :
    (system : SystemDef) → HasUniqueKeys (extract_resource_accesses system)
unfolding extract_resource_accesses
extract_resource_accesses-HasUniqueKeys system =
    insert_accesses-HasUniqueKeys [] system.parameters tt

BothRead-none : (o : Option ResourceAccess) → BothRead o none
BothRead-none none = tt
BothRead-none (some a) = tt

access_conflict_iff :
    (a b : ResourceAccess)
    → (is_conflict (access_conflict a b) ≡ false) ↔ ((a ≡ immutable) × (b ≡ immutable))
unfolding access_conflict is_conflict
access_conflict_iff a b = ground arith

BothRead-head :
    (k r : String) (a : ResourceAccess) (m1 : HashMap String ResourceAccess)
    (o : Option ResourceAccess)
    → ((k == r) ≡ true → BothRead (some a) o)
    → BothRead (HashMap.get r m1) o
    → BothRead (HashMap.get r ((k, a) ∷ m1)) o
unfolding HashMap.get
BothRead-head k r a m1 o head rest = elim (Bool-cases (k == r)) [
  | inl e ↦ rw e (head e)
  | inr e ↦ rw e rest
]

first_conflict_cons :
    (k : String) (a : ResourceAccess) (m1 m2 : HashMap String ResourceAccess)
    → first_conflict ((k, a) ∷ m1) m2 ≡ no_conflict
    → BothRead (some a) (HashMap.get k m2) × (first_conflict m1 m2 ≡ no_conflict)
unfolding first_conflict
first_conflict_cons k a m1 m2 h = ground arith

first_conflict_sound :
    (m1 m2 : HashMap String ResourceAccess)
    → first_conflict m1 m2 ≡ no_conflict
    → MapsCompatible m1 m2
unfolding HashMap.get
first_conflict_sound [] m2 h r = tt
first_conflict_sound ((k, a) ∷ m1) m2 h r =
    let (head, rest) = first_conflict_cons k a m1 m2 h in
    BothRead-head k r a m1 (HashMap.get r m2)
      (λ e. subst (λ j. BothRead (some a) (HashMap.get j m2)) ((eq_iff k r).0 e) head)
      (first_conflict_sound m1 m2 rest r)

cons_first_conflict :
    (k : String) (a : ResourceAccess) (m1 m2 : HashMap String ResourceAccess)
    → BothRead (some a) (HashMap.get k m2)
    → first_conflict m1 m2 ≡ no_conflict
    → first_conflict ((k, a) ∷ m1) m2 ≡ no_conflict
unfolding first_conflict
cons_first_conflict k a m1 m2 h rest = ground arith

MapsCompatible-tail :
    (k : String) (a : ResourceAccess) (m1 m2 : HashMap String ResourceAccess)
    → HashMap.get k m1 ≡ none
    → MapsCompatible ((k, a) ∷ m1) m2
    → MapsCompatible m1 m2
unfolding HashMap.get
MapsCompatible-tail k a m1 m2 u h r = elim (Bool-cases (k == r)) [
  | inl e ↦
      subst (λ o. BothRead o (HashMap.get r m2))
        (sym u ∙ ap (λ j. HashMap.get j m1) ((eq_iff k r).0 e)) tt
  | inr e ↦ rw e at (h r)
]

first_conflict_complete :
    (m1 m2 : HashMap String ResourceAccess)
    → HasUniqueKeys m1
    → MapsCompatible m1 m2
    → first_conflict m1 m2 ≡ no_conflict
unfolding first_conflict HashMap.get
first_conflict_complete [] m2 u h = refl
first_conflict_complete ((k, a) ∷ m1) m2 u h =
    cons_first_conflict k a m1 m2 (rw (==_refl k) at (h k))
      (first_conflict_complete m1 m2 u.1 (MapsCompatible-tail k a m1 m2 u.0 h))

BothRead-symm : (a b : Option ResourceAccess) → BothRead a b → BothRead b a
BothRead-symm none none h = tt
BothRead-symm none (some b) h = tt
BothRead-symm (some a) none h = tt
BothRead-symm (some a) (some b) h = (h.1, h.0)

pub AreCompatible-symm : (s1 s2 : SystemDef) → AreCompatible s1 s2 → AreCompatible s2 s1
AreCompatible-symm s1 s2 h r = BothRead-symm _ _ (h r)

pub check_system_conflict_iff :
    (system1 system2 : SystemDef)
    → (check_system_conflict system1 system2 ≡ ok no_conflict) ↔ AreCompatible system1 system2
unfolding check_system_conflict
check_system_conflict_iff s1 s2 = (
  λ h. first_conflict_sound _ _ (cc),
  λ h. ap ok (first_conflict_complete _ _ (extract_resource_accesses-HasUniqueKeys s1) h),
)
