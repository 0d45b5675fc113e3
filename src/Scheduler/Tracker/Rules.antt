-- ===== src/Scheduler/Tracker/Rules.antt =====
-- src/scheduler.rs: the borrow rules, stated without the tests of `can_access_resource`.
use tricti.Base.{
  String, ◌≡◌, refl, ◌↔◌, false, Option, none, some, List, [], ◌∷◌, arith, All, ok, err, ◌>>◌,
  text_key, eq_iff,
}
use tricti.Base.HashMap
use tricti.Base.HashSet
use tricti.Ast.{ResourceAccess, immutable, mutable, owned}
use tricti.Scheduler.Error.{SchedulerError, Outcome}
use tricti.Scheduler.Tracker.{
  ResourceTracker, refuse_other, refuse_any, refuse_other_readers, refuse_readers,
  can_access_resource,
}

-- Nobody but `system` holds what the option records.
abbrev pub IsOnly : Option String → String → Type 0
IsOnly none system = Unit {0}
IsOnly (some holder) system = holder ≡ system

abbrev pub IsFree : Option String → Type 0
IsFree none = Unit {0}
IsFree (some holder) = ⊥

abbrev pub IsOnlyReader : Option (List String) → String → Type 0
IsOnlyReader none system = Unit {0}
IsOnlyReader (some borrowers) system = All (λ s. s ≡ system) borrowers

abbrev pub IsUnread : Option (List String) → Type 0
IsUnread none = Unit {0}
IsUnread (some []) = Unit {0}
IsUnread (some (s ∷ ss)) = ⊥

-- A set lists each of its members once.
abbrev pub IsDistinct : List String → Type 0
IsDistinct [] = Unit {0}
IsDistinct (s ∷ ss) = (HashSet.contains ss s ≡ false) × IsDistinct ss

abbrev pub ListsOnce : Option (List String) → Type 0
ListsOnce none = Unit {0}
ListsOnce (some borrowers) = IsDistinct borrowers

-- Readers share with readers; a writer shares with nobody but itself; an owner takes what nobody
-- else has and nobody borrows.
abbrev pub Permits : ResourceTracker → String → String → ResourceAccess → Type 0
Permits t resource system immutable =
    IsOnly (HashMap.get resource t.mutable_borrows) system
    × IsOnly (HashMap.get resource t.owned_resources) system
Permits t resource system mutable =
    IsOnlyReader (HashMap.get resource t.immutable_borrows) system
    × IsOnly (HashMap.get resource t.mutable_borrows) system
    × IsOnly (HashMap.get resource t.owned_resources) system
Permits t resource system owned =
    IsUnread (HashMap.get resource t.immutable_borrows)
    × IsFree (HashMap.get resource t.mutable_borrows)
    × IsOnly (HashMap.get resource t.owned_resources) system

refuse_other_iff :
    (o : Option String) (s : String) (e : String → SchedulerError)
    → (refuse_other o s e ≡ ok tt) ↔ IsOnly o s
unfolding refuse_other
refuse_other_iff none s e = ground arith
refuse_other_iff (some h) s e = ground (arith, eq_iff h s)

refuse_any_iff :
    (o : Option String) (e : String → SchedulerError) → (refuse_any o e ≡ ok tt) ↔ IsFree o
unfolding refuse_any
refuse_any_iff none e = ground arith
refuse_any_iff (some h) e = ground arith

refuse_readers_iff :
    (o : Option (List String)) (e : String → SchedulerError)
    → (refuse_readers o e ≡ ok tt) ↔ IsUnread o
unfolding refuse_readers
refuse_readers_iff none e = ground arith
refuse_readers_iff (some []) e = ground arith
refuse_readers_iff (some (x ∷ xs)) e = ground arith

refuse_other_readers_iff :
    (o : Option (List String)) (s : String) (e : String → SchedulerError)
    → ListsOnce o
    → (refuse_other_readers o s e ≡ ok tt) ↔ IsOnlyReader o s
unfolding refuse_other_readers
refuse_other_readers_iff none s e d = ground arith
refuse_other_readers_iff (some []) s e d = ground arith
refuse_other_readers_iff (some (x ∷ [])) s e d = ground (arith, eq_iff x s)
refuse_other_readers_iff (some (x ∷ y ∷ ys)) s e d =
    ground (arith, eq_iff x s, eq_iff y s, eq_iff y x)

>>-ok_iff : (m k : Outcome (Unit {0})) → ((m >> k) ≡ ok tt) ↔ ((m ≡ ok tt) × (k ≡ ok tt))
>>-ok_iff (ok tt) k = ((λ h. (refl, h)), λ h. h.1)
>>-ok_iff (err e) k = ((λ h. (h, cc)), λ h. h.0)

-- A chain of two and of three checks passes where each of its conditions holds.
checks_two :
    {P Q : Type 0} (m k : Outcome (Unit {0}))
    → (m ≡ ok tt) ↔ P
    → (k ≡ ok tt) ↔ Q
    → ((m >> k) ≡ ok tt) ↔ (P × Q)
checks_two m k p q = (
  λ h. (let (hm, hk) = (>>-ok_iff m k).0 h in (p.0 hm, q.0 hk)),
  λ h. (>>-ok_iff m k).1 (p.1 h.0, q.1 h.1),
)

checks_three :
    {P Q R : Type 0} (l m k : Outcome (Unit {0}))
    → (l ≡ ok tt) ↔ P
    → (m ≡ ok tt) ↔ Q
    → (k ≡ ok tt) ↔ R
    → ((l >> (m >> k)) ≡ ok tt) ↔ (P × Q × R)
checks_three l m k p q r = (
  λ h.
      (let (hl, hmk) = (>>-ok_iff l (m >> k)).0 h in
        let (hm, hk) = (>>-ok_iff m k).0 hmk in (p.0 hl, q.0 hm, r.0 hk)),
  λ h. (>>-ok_iff l (m >> k)).1 (p.1 h.0, (>>-ok_iff m k).1 (q.1 h.1, r.1 h.2)),
)

-- An access is granted exactly when the borrow rules permit it.
pub can_access_resource_iff :
    (t : ResourceTracker) (resource system : String) (access : ResourceAccess)
    → ListsOnce (HashMap.get resource t.immutable_borrows)
    → (can_access_resource t resource system access ≡ ok tt) ↔ Permits t resource system access
unfolding can_access_resource
can_access_resource_iff t r s immutable d =
    let only_mut = refuse_other_iff (HashMap.get r t.mutable_borrows) s _ in
    let only_own = refuse_other_iff (HashMap.get r t.owned_resources) s _ in
    checks_two _ _ only_mut only_own
can_access_resource_iff t r s mutable d =
    checks_three _ _ _ (refuse_other_readers_iff (HashMap.get r t.immutable_borrows) s _ d)
      (refuse_other_iff (HashMap.get r t.mutable_borrows) s _)
      (refuse_other_iff (HashMap.get r t.owned_resources) s _)
can_access_resource_iff t r s owned d =
    checks_three _ _ _ (refuse_readers_iff (HashMap.get r t.immutable_borrows) _)
      (refuse_any_iff (HashMap.get r t.mutable_borrows) _)
      (refuse_other_iff (HashMap.get r t.owned_resources) s _)
