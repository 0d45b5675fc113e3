-- ===== src/Scheduler/Tracker/Exclusive.antt =====
-- src/scheduler.rs: `add_access` and `remove_access` under the exclusiveness of resources.
use tricti.Base.{
  String, ◌≡◌, refl, subst, inl, inr, false, ◌==◌, ok, err, ◌>>◌, text_key, eq_iff, Bool-cases,
  ==_refl,
}
use tricti.Base.HashMap.{get-insert}
use tricti.Ast.{ResourceAccess, immutable, mutable, owned}
use tricti.Scheduler.Tracker.{
  ResourceTracker, record_access, add_access, remove_access, can_access_resource,
}
use tricti.Scheduler.Error.{Outcome}
use tricti.Scheduler.Tracker.Rules.{Permits, can_access_resource_iff}
use tricti.Scheduler.Tracker.Shares.{SharesAt, IsExclusive, add_reader, add_writer, add_owner}
use tricti.Scheduler.Tracker.Drops.{
  get-without_reader, get-without_holder, drop_reader-Shares, drop_writer-Shares, drop_owner-Shares,
}

-- A granted access keeps the resource exclusive.
record_access-here :
    (t : ResourceTracker) (r s : String) (a : ResourceAccess)
    → Permits t r s a
    → SharesAt t r
    → SharesAt (record_access t r s a) r
unfolding record_access
record_access-here t r s immutable p h =
    rw (get-insert r r _ t.immutable_borrows, ==_refl r) (add_reader _ _ _ s p.0 p.1 h)
record_access-here t r s mutable p h =
    rw (get-insert r r _ t.mutable_borrows, ==_refl r) (add_writer _ _ _ s p.0 p.2 h)
record_access-here t r s owned p h =
    rw (get-insert r r _ t.owned_resources, ==_refl r) (add_owner _ _ _ s p.0 p.1 h)

record_access-away :
    (t : ResourceTracker) (r j s : String) (a : ResourceAccess)
    → (r == j) ≡ false
    → SharesAt t j
    → SharesAt (record_access t r s a) j
unfolding record_access
record_access-away t r j s immutable e h = rw (get-insert r j _ t.immutable_borrows, e) h
record_access-away t r j s mutable e h = rw (get-insert r j _ t.mutable_borrows, e) h
record_access-away t r j s owned e h = rw (get-insert r j _ t.owned_resources, e) h

pub add_access-eq-ok :
    (t u : ResourceTracker) (r s : String) (a : ResourceAccess)
    → add_access t r s a ≡ ok u
    → (can_access_resource t r s a ≡ ok tt) × (u ≡ record_access t r s a)
unfolding add_access
add_access-eq-ok t u r s a h = go (can_access_resource t r s a) h
  where
    go :
        (m : Outcome (Unit {0}))
        → (m >> ok (record_access t r s a)) ≡ ok u
        → (m ≡ ok tt) × (u ≡ record_access t r s a)
    go (ok tt) e = (refl, cc)
    go (err x) e = (cc, cc)

-- An access that is granted keeps every resource exclusive.
pub add_access-IsExclusive :
    (t u : ResourceTracker) (resource system : String) (access : ResourceAccess)
    → IsExclusive t
    → add_access t resource system access ≡ ok u
    → IsExclusive u
add_access-IsExclusive t u r s a x h j =
    let (granted, e) = add_access-eq-ok t u r s a h in
    let permits = (can_access_resource_iff t r s a (x r).once).0 granted in
    elim (Bool-cases (r == j)) [
      | inl here ↦
          subst (SharesAt u) ((eq_iff r j).0 here) (rw e (record_access-here t r s a permits (x r)))
      | inr away ↦ rw e (record_access-away t r j s a away (x j))
    ]

-- A release keeps every resource exclusive, whoever asks for it.
pub remove_access-IsExclusive :
    (t : ResourceTracker) (resource system : String) (access : ResourceAccess)
    → IsExclusive t
    → IsExclusive (remove_access t resource system access)
unfolding remove_access
remove_access-IsExclusive t r s immutable x j = elim (Bool-cases (r == j)) [
  | inl e ↦ rw (get-without_reader r j s t.immutable_borrows, e) (drop_reader-Shares _ _ _ s (x j))
  | inr e ↦ rw (get-without_reader r j s t.immutable_borrows, e) (x j)
]
remove_access-IsExclusive t r s mutable x j = elim (Bool-cases (r == j)) [
  | inl e ↦ rw (get-without_holder r j s t.mutable_borrows, e) (drop_writer-Shares _ _ _ s (x j))
  | inr e ↦ rw (get-without_holder r j s t.mutable_borrows, e) (x j)
]
remove_access-IsExclusive t r s owned x j = elim (Bool-cases (r == j)) [
  | inl e ↦ rw (get-without_holder r j s t.owned_resources, e) (drop_owner-Shares _ _ _ s (x j))
  | inr e ↦ rw (get-without_holder r j s t.owned_resources, e) (x j)
]
