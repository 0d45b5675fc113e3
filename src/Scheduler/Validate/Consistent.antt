-- ===== src/Scheduler/Validate/Consistent.antt =====
-- src/scheduler.rs: `validate_system_resources` against the agreement of a system's declarations.
use tricti.Base.{
  String, ◌≡◌, refl, ◌∙◌, sym, subst, ◌≢◌, ◌↔◌, ◌⊎◌, inl, inr, true, false, Option, none, some,
  List, [], ◌∷◌, arith, ◌==◌, All, ok, >>=_ok_inv, text_key, eq_iff, Bool-cases,
}
use tricti.Base.HashMap.{HashMap, get-insert}
use tricti.Base.HashMap
use tricti.Ast.{ResourceAccess, SystemParameter, query, resource, regular, SystemDef}
use tricti.Scheduler.TypeId.{type_to_resource_id}
use tricti.Scheduler.Validate.{
  access_eq, check_existing, check_parameters, validate_system_resources,
}

-- A resource parameter: its name, its access and its type's identifier.
abbrev pub Declaration : Type 0
Declaration = String × ResourceAccess × String

abbrev pub declarations : List SystemParameter → List Declaration
declarations [] = []
declarations (resource _ name resource_type access ∷ params) =
    (name, access, type_to_resource_id resource_type) ∷ declarations params
declarations (query _ ∷ params) = declarations params
declarations (regular _ _ _ ∷ params) = declarations params

-- Declarations of one resource have one access and one type.
abbrev pub Agrees : Declaration → Declaration → Type 0
Agrees d e = (d.0 ≢ e.0) ⊎ ((d.1 ≡ e.1) × (d.2 ≡ e.2))

abbrev pub AllAgree : List Declaration → Type 0
AllAgree [] = Unit {0}
AllAgree (d ∷ ds) = All (Agrees d) ds × AllAgree ds

abbrev FitsEntry : Option (ResourceAccess × String) → Declaration → Type 0
FitsEntry none d = Unit {0}
FitsEntry (some (a, t)) d = (a ≡ d.1) × (t ≡ d.2)

abbrev Fits : HashMap String (ResourceAccess × String) → Declaration → Type 0
Fits m d = FitsEntry (HashMap.get d.0 m) d

access_eq_iff : (a b : ResourceAccess) → (access_eq a b ≡ true) ↔ (a ≡ b)
unfolding access_eq
access_eq_iff a b = ground arith

-- The map once the declaration has passed.
abbrev record_entry :
    Option (ResourceAccess × String)
    → Declaration
    → HashMap String (ResourceAccess × String)
    → HashMap String (ResourceAccess × String)
record_entry none d m = HashMap.insert d.0 (d.1, d.2) m
record_entry (some _) d m = m

abbrev recorded :
    Declaration
    → HashMap String (ResourceAccess × String)
    → HashMap String (ResourceAccess × String)
recorded d m = record_entry (HashMap.get d.0 m) d m

check_existing_sound :
    (s : String) (o : Option (ResourceAccess × String)) (d : Declaration)
    (m m' : HashMap String (ResourceAccess × String))
    → check_existing s d.0 o d.2 d.1 m ≡ ok m'
    → FitsEntry o d × (m' ≡ record_entry o d m)
unfolding check_existing
check_existing_sound s none d m m' h = (tt, cc)
check_existing_sound s (some (b, u)) d m m' h = ground (arith, eq_iff u d.2, access_eq_iff b d.1)

check_existing_complete :
    (s : String) (o : Option (ResourceAccess × String)) (d : Declaration)
    (m : HashMap String (ResourceAccess × String))
    → FitsEntry o d
    → check_existing s d.0 o d.2 d.1 m ≡ ok (record_entry o d m)
unfolding check_existing
check_existing_complete s none d m h = refl
check_existing_complete s (some (b, u)) d m h = ground (arith, eq_iff u d.2, access_eq_iff b d.1)

-- A later declaration fits what is recorded where it fitted before and agrees with the new one.
FitsEntry-recorded :
    (d e : Declaration) (o : Option (ResourceAccess × String))
    (m : HashMap String (ResourceAccess × String))
    → HashMap.get d.0 m ≡ o
    → FitsEntry o d
    → Fits (record_entry o d m) e ↔ (Fits m e × Agrees d e)
FitsEntry-recorded d e none m g h = elim (Bool-cases (d.0 == e.0)) [
  | inl hit ↦
      let same = (eq_iff d.0 e.0).0 hit in
      let absent : HashMap.get e.0 m ≡ none = subst (λ k. HashMap.get k m ≡ none) same g in
      rw (get-insert d.0 e.0 (d.1, d.2) m, hit, absent) ((λ x. (tt, inr x)), λ x. agreed same x.1)
  | inr miss ↦ rw (get-insert d.0 e.0 (d.1, d.2) m, miss) ((λ x. (x, inl (differ miss))), λ x. x.0)
]
  where
    agreed : d.0 ≡ e.0 → Agrees d e → (d.1 ≡ e.1) × (d.2 ≡ e.2)
    agreed same (inl ne) = absurd (ne same)
    agreed same (inr x) = x

    differ : (d.0 == e.0) ≡ false → d.0 ≢ e.0
    differ miss same = ground (arith, eq_iff d.0 e.0)
FitsEntry-recorded d e (some (a, t)) m g h =
    ((λ x. (x, agrees (Bool-cases (d.0 == e.0)) x)), λ x. x.0)
  where
    agrees : ((d.0 == e.0) ≡ true) ⊎ ((d.0 == e.0) ≡ false) → Fits m e → Agrees d e
    agrees (inr miss) x = inl (λ same. ground (arith, eq_iff d.0 e.0))
    agrees (inl hit) x =
        let present : HashMap.get e.0 m ≡ some (a, t) =
          subst (λ k. HashMap.get k m ≡ some (a, t)) ((eq_iff d.0 e.0).0 hit) g in
        let (p, q) = subst (λ o. FitsEntry o e) present x in inr (sym h.0 ∙ p, sym h.1 ∙ q)

All-recorded :
    (d : Declaration) (es : List Declaration) (m : HashMap String (ResourceAccess × String))
    → Fits m d
    → All (Fits (recorded d m)) es ↔ (All (Fits m) es × All (Agrees d) es)
All-recorded d [] m h = ((λ _. (tt, tt)), λ _. tt)
All-recorded d (e ∷ es) m h =
    let one = FitsEntry-recorded d e (HashMap.get d.0 m) m refl h in
    let rest = All-recorded d es m h in
    (
      λ x. (let (f, a) = one.0 x.0 in let (fs, as') = rest.0 x.1 in ((f, fs), (a, as'))),
      λ x. (one.1 (x.0.0, x.1.0), rest.1 (x.0.1, x.1.1)),
    )

check_parameters_iff :
    (s : String) (m : HashMap String (ResourceAccess × String)) (ps : List SystemParameter)
    → (check_parameters s m ps ≡ ok tt)
      ↔ (All (Fits m) (declarations ps) × AllAgree (declarations ps))
unfolding check_parameters
check_parameters_iff s m [] = ((λ _. (tt, tt)), λ _. refl)
check_parameters_iff s m (query _ ∷ ps) = check_parameters_iff s m ps
check_parameters_iff s m (regular _ _ _ ∷ ps) = check_parameters_iff s m ps
check_parameters_iff s m (resource _ n t a ∷ ps) =
    let d : Declaration = (n, a, type_to_resource_id t) in
    let rest = check_parameters_iff s (recorded d m) ps in
    (
      λ h.
          (let (m', passed, h') = >>=_ok_inv _ (check_existing s n (HashMap.get n m) d.2 a m) h in
            let (fits, e) = check_existing_sound s (HashMap.get n m) d m m' passed in
            let (later, agree) = rest.0 (subst (λ k. check_parameters s k ps ≡ ok tt) e h') in
            let (old, new) = (All-recorded d (declarations ps) m fits).0 later in
            ((fits, old), (new, agree))),
      λ x.
          (let later = (All-recorded d (declarations ps) m x.0.0).1 (x.0.1, x.1.0) in
            rw (check_existing_complete s (HashMap.get n m) d m x.0.0) (rest.1 (later, x.1.1))),
    )

Fits-empty : (ds : List Declaration) → All (Fits []) ds
unfolding HashMap.get
Fits-empty [] = tt
Fits-empty (d ∷ ds) = (tt, Fits-empty ds)

-- A system is accepted exactly where all declarations of one resource name have the same access and
-- the same type identifier.
pub validate_system_resources_iff :
    (system : SystemDef)
    → (validate_system_resources system ≡ ok tt) ↔ AllAgree (declarations system.parameters)
unfolding validate_system_resources
validate_system_resources_iff system =
    let iff = check_parameters_iff system.name [] system.parameters in
    ((λ h. (iff.0 h).1), λ h. iff.1 (Fits-empty _, h))
