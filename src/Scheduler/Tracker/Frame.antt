-- ===== src/Scheduler/Tracker/Frame.antt =====
-- src/scheduler.rs: an access to one resource against the checks on another.
use tricti.Base.{String, ◌≡◌, refl, false, ◌==◌, text_key, ok, ◌>>=◌}
use tricti.Base.HashMap.{get-insert}
use tricti.Ast.{ResourceAccess, immutable, mutable, owned}
use tricti.Scheduler.Tracker.{ResourceTracker, can_access_resource, record_access, add_access}

pub can_access_resource-record_access :
    (t : ResourceTracker) (r j s : String) (a b : ResourceAccess)
    → (r == j) ≡ false
    → can_access_resource (record_access t r s a) j s b ≡ can_access_resource t j s b
unfolding can_access_resource record_access
can_access_resource-record_access t r j s immutable immutable e = refl
can_access_resource-record_access t r j s immutable mutable e =
    rw (get-insert r j _ t.immutable_borrows, e)
can_access_resource-record_access t r j s immutable owned e =
    rw (get-insert r j _ t.immutable_borrows, e)
can_access_resource-record_access t r j s mutable immutable e =
    rw (get-insert r j s t.mutable_borrows, e)
can_access_resource-record_access t r j s mutable mutable e =
    rw (get-insert r j s t.mutable_borrows, e)
can_access_resource-record_access t r j s mutable owned e =
    rw (get-insert r j s t.mutable_borrows, e)
can_access_resource-record_access t r j s owned immutable e =
    rw (get-insert r j s t.owned_resources, e)
can_access_resource-record_access t r j s owned mutable e =
    rw (get-insert r j s t.owned_resources, e)
can_access_resource-record_access t r j s owned owned e = rw (get-insert r j s t.owned_resources, e)

pub add_access-of_ok :
    (t : ResourceTracker) (r s : String) (a : ResourceAccess)
    → can_access_resource t r s a ≡ ok tt
    → add_access t r s a ≡ ok (record_access t r s a)
unfolding add_access
add_access-of_ok t r s a e = rw (e, ◌>>=◌)
