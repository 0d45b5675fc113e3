-- ===== src/Scheduler/Tracker/History.antt =====
-- src/scheduler.rs: `ResourceTracker` over whole histories and for a single access.
use tricti.Base.{
  String, ◌≡◌, refl, ◌∙◌, ap, ◌≢◌, ◌↔◌, inl, inr, Bool, true, false, Option, none, some, List, [],
  ◌∷◌, ◌++◌, arith, ◌==◌, retain, ok, text_key, eq_iff, Bool-cases, ==_refl,
}
use tricti.Base.HashMap
use tricti.Base.HashMap.{get-insert}
use tricti.Base.HashSet
use tricti.Base.HashSet.{contains-remove}
use tricti.Ast.{ResourceAccess, immutable, mutable, owned}
use tricti.Scheduler.Tracker.{
  ResourceTracker, new, with_reader, without_reader, without_holder, record_access, add_access,
  remove_access, get_immutable_borrowers, get_mutable_borrower, get_resource_owner,
  is_resource_available, is_empty,
}
use tricti.Scheduler.Tracker.Rules.{IsOnly, Permits, can_access_resource_iff}
use tricti.Scheduler.Tracker.Shares.{SharesAt, IsExclusive}
use tricti.Scheduler.Tracker.Drops.{
  drop_reader, drop_holder, get-without_reader, get-without_holder,
}
use tricti.Scheduler.Tracker.Exclusive.{
  add_access-eq-ok, add_access-IsExclusive, remove_access-IsExclusive,
}

-- One call of the tracker: a granted access, or a release by anybody.
pub data Step (t u : ResourceTracker) : Type 0 where
  acquires :
      (resource system : String) (access : ResourceAccess)
      → add_access t resource system access ≡ ok u
      → Step t u
  releases :
      (resource system : String) (access : ResourceAccess)
      → u ≡ remove_access t resource system access
      → Step t u

pub data Reach (t : ResourceTracker) : ResourceTracker → Type 0 where
  here : Reach t t
  next : {u v : ResourceTracker} → Reach t u → Step u v → Reach t v

new-IsExclusive : IsExclusive new
unfolding new HashMap.get
new-IsExclusive r = record { once = tt; inhabited = λ e. cc; writer_alone = tt; owner_alone = tt }

Step-IsExclusive : {t u : ResourceTracker} → Step t u → IsExclusive t → IsExclusive u
Step-IsExclusive {t} {u} (acquires r s a e) x = add_access-IsExclusive t u r s a x e
Step-IsExclusive {t} {u} (releases r s a e) x = rw e (remove_access-IsExclusive t r s a x)

pub Reach-IsExclusive : {t u : ResourceTracker} → Reach t u → IsExclusive t → IsExclusive u
Reach-IsExclusive here x = x
Reach-IsExclusive (next r st) x = Step-IsExclusive st (Reach-IsExclusive r x)

-- The system reads the resource.
abbrev pub reads : ResourceTracker → String → String → Bool
reads t r s = elim (get_immutable_borrowers t r) [ none ↦ false | some bs ↦ HashSet.contains bs s ]

-- After any history from an empty tracker, whoever writes a resource is its only reader and the
-- only possible owner, and whoever owns it is its only reader.
pub Reach-new-Shares : (t : ResourceTracker) (resource : String) → Reach new t → SharesAt t resource
Reach-new-Shares t resource reach = Reach-IsExclusive reach new-IsExclusive resource

abbrev reader_of : Option (List String) → String → Bool
reader_of o s = elim o [ none ↦ false | some bs ↦ HashSet.contains bs s ]

unread-none :
    (o : Option (List String)) → o ≢ some [] → ((s : String) → reader_of o s ≡ false) → o ≡ none
unfolding HashSet.contains
unread-none none ne h = refl
unread-none (some []) ne h = absurd (ne refl)
unread-none (some (x ∷ bs)) ne h = ground (arith, h x, ==_refl x)

-- A resource is reported available exactly when nobody reads, writes or owns it.
pub is_resource_available_iff :
    (t : ResourceTracker) (resource : String)
    → Reach new t
    → (is_resource_available t resource ≡ true) ↔ (
        ((system : String) → reads t resource system ≡ false)
        × (get_mutable_borrower t resource ≡ none)
        × (get_resource_owner t resource ≡ none))
unfolding is_resource_available get_mutable_borrower get_resource_owner get_immutable_borrowers
is_resource_available_iff t r reach = (
  λ h. ((λ s. ground arith), ground arith, ground arith),
  λ (unread, unwritten, unowned).
      (let e = unread-none _ (Reach-new-Shares t r reach).inhabited unread in ground arith),
)

-- The readers, the writer and the owner of a resource, as lookups show them.
abbrev pub LooksLike : ResourceTracker → ResourceTracker → String → Type 0
LooksLike t u r =
    (get_immutable_borrowers t r ≡ get_immutable_borrowers u r)
    × (get_mutable_borrower t r ≡ get_mutable_borrower u r)
    × (get_resource_owner t r ≡ get_resource_owner u r)

-- The system does not yet have this kind of access to the resource.
abbrev pub IsNew : ResourceTracker → String → String → ResourceAccess → Type 0
IsNew t r s immutable = reads t r s ≡ false
IsNew t r s mutable = get_mutable_borrower t r ≢ some s
IsNew t r s owned = get_resource_owner t r ≢ some s

retain-id :
    (s : String) (bs : List String) → HashSet.contains bs s ≡ false → HashSet.remove s bs ≡ bs
unfolding HashSet.contains HashSet.remove retain
retain-id s [] h = refl
retain-id s (x ∷ bs) h = ground (arith, retain-id s bs, eq_iff x s)

retain-snoc :
    (s : String) (bs : List String)
    → HashSet.contains bs s ≡ false
    → HashSet.remove s (bs ++ s ∷ []) ≡ bs
unfolding HashSet.contains HashSet.remove retain
retain-snoc s [] h = ground (arith, ==_refl s)
retain-snoc s (x ∷ bs) h = ground (arith, retain-snoc s bs, eq_iff x s)

drop_reader-with_reader :
    (o : Option (List String)) (s : String)
    → reader_of o s ≡ false
    → o ≢ some []
    → drop_reader (some (with_reader o s)) s ≡ o
unfolding with_reader is_empty HashSet.contains
drop_reader-with_reader none s h ne = rw (retain-snoc s [] refl)
drop_reader-with_reader (some []) s h ne = absurd (ne refl)
drop_reader-with_reader (some (x ∷ bs)) s h ne = rw (h, retain-snoc s (x ∷ bs) h)

vacant : (o : Option String) (s : String) → IsOnly o s → o ≢ some s → drop_holder (some s) s ≡ o
vacant none s only ne = rw (==_refl s)
vacant (some h) s only ne = absurd (ne (ap some only))

undo-immutable :
    (r j s : String) (m : HashMap.HashMap String (List String))
    → reader_of (HashMap.get r m) s ≡ false
    → HashMap.get r m ≢ some []
    → (let m' = HashMap.insert r (with_reader (HashMap.get r m) s) m in
        HashMap.get j (without_reader (HashMap.get r m') r s m'))
      ≡ HashMap.get j m
undo-immutable r j s m fresh ne =
    let added = with_reader (HashMap.get r m) s in
    elim (Bool-cases (r == j)) [
      | inl hit ↦
          rw (get-without_reader r j s (HashMap.insert r added m), get-insert r j added m, hit)
            (drop_reader-with_reader (HashMap.get r m) s fresh ne
              ∙ ap (λ k. HashMap.get k m) ((eq_iff r j).0 hit))
      | inr away ↦
          rw (get-without_reader r j s (HashMap.insert r added m), get-insert r j added m, away)
    ]

undo_holder :
    (r j s : String) (m : HashMap.HashMap String String)
    → IsOnly (HashMap.get r m) s
    → HashMap.get r m ≢ some s
    → (let m' = HashMap.insert r s m in HashMap.get j (without_holder (HashMap.get r m') r s m'))
      ≡ HashMap.get j m
undo_holder r j s m only fresh = elim (Bool-cases (r == j)) [
  | inl hit ↦
      rw (get-without_holder r j s (HashMap.insert r s m), get-insert r j s m, hit)
        (vacant (HashMap.get r m) s only fresh ∙ ap (λ k. HashMap.get k m) ((eq_iff r j).0 hit))
  | inr away ↦ rw (get-without_holder r j s (HashMap.insert r s m), get-insert r j s m, away)
]

undo_access :
    (t : ResourceTracker) (r s j : String) (a : ResourceAccess)
    → SharesAt t r
    → IsNew t r s a
    → Permits t r s a
    → LooksLike (remove_access (record_access t r s a) r s a) t j
unfolding remove_access record_access get_immutable_borrowers get_mutable_borrower
    get_resource_owner
undo_access t r s j immutable shares fresh p =
    (undo-immutable r j s t.immutable_borrows fresh shares.inhabited, refl, refl)
undo_access t r s j mutable shares fresh p =
    (refl, undo_holder r j s t.mutable_borrows p.1 fresh, refl)
undo_access t r s j owned shares fresh p =
    (refl, refl, undo_holder r j s t.owned_resources p.2 fresh)

-- Releasing an access that was just granted leaves every resource as it was, for a system that did
-- not have this kind of access before.
pub remove_access-add_access :
    (t u : ResourceTracker) (resource system other : String) (access : ResourceAccess)
    → Reach new t
    → IsNew t resource system access
    → add_access t resource system access ≡ ok u
    → LooksLike (remove_access u resource system access) t other
remove_access-add_access t u r s j a reach fresh e =
    let shares = Reach-new-Shares t r reach in
    let (granted, recorded) = add_access-eq-ok t u r s a e in
    rw recorded
      (undo_access t r s j a shares fresh ((can_access_resource_iff t r s a shares.once).0 granted))
