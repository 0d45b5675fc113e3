-- ===== src/Tests/TrackerTests.antt =====
-- `ResourceTracker` at concrete accesses.
use tricti.Base.{◌≡◌, refl, ◌↔◌, [], ◌∷◌, ok, err}
use tricti.Base.HashMap
use tricti.Base.HashSet
use tricti.Ast.{immutable, mutable}
use tricti.Scheduler.Error.{resource_conflict, write_read}
use tricti.Scheduler.Tracker
use tricti.Scheduler.Tracker.{
  ResourceTracker, can_access_resource, record_access, add_access, remove_access,
  is_resource_available, get_immutable_borrowers, get_mutable_borrower, get_resource_owner,
}
use tricti.Scheduler.Tracker.Rules.{Permits, can_access_resource_iff}
use tricti.Scheduler.Tracker.Shares.{SharesAt}
use tricti.Scheduler.Tracker.History.{
  Reach, here, next, acquires, Reach-new-Shares, LooksLike, remove_access-add_access,
}

-- One system reads the resource.
abbrev read_once : ResourceTracker
read_once = record {
  immutable_borrows = ("db", "reader" ∷ []) ∷ [];
  mutable_borrows = [];
  owned_resources = [];
}

Reach-read_once : Reach Tracker.new read_once
unfolding Tracker.new add_access
Reach-read_once = next here (acquires "db" "reader" immutable refl)

Reach-new-Shares_example : SharesAt read_once "db"
Reach-new-Shares_example = Reach-new-Shares read_once "db" Reach-read_once

can_access_resource_iff_example :
    (can_access_resource read_once "db" "reader" mutable ≡ ok tt)
    ↔ Permits read_once "db" "reader" mutable
unfolding HashMap.get HashSet.contains
can_access_resource_iff_example = can_access_resource_iff read_once "db" "reader" mutable (refl, tt)

remove_access-add_access_example :
    LooksLike
      (remove_access (record_access read_once "db" "other" immutable) "db" "other" immutable)
      read_once
      "db"
unfolding add_access get_immutable_borrowers HashSet.contains
remove_access-add_access_example =
    remove_access-add_access read_once (record_access read_once "db" "other" immutable) "db" "other"
      "db" immutable Reach-read_once refl refl

-- A writer is turned away while another system reads.
writer_waits :
    can_access_resource read_once "db" "writer" mutable
    ≡ err (resource_conflict "writer" "reader" "db" write_read)
unfolding can_access_resource
writer_waits = refl
