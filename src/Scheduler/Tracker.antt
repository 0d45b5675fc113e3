-- ===== src/Scheduler/Tracker.antt =====
-- src/scheduler.rs: `ResourceTracker`, who reads, writes and owns each resource.
pub mod Rules
pub mod Shares
pub mod Drops
pub mod Exclusive
pub mod History
pub mod Frame
use tricti.Base.{
  ℕ, ◌<>◌, String, Bool, true, false, not, ◌&&◌, ◌||◌, Option, none, some, List, [], ◌∷◌, ltb,
  if◌then◌else◌, ◌==◌, length, ok, err, ◌>>◌, text_key,
}
use tricti.Base.HashMap.{HashMap}
use tricti.Base.HashMap
use tricti.Base.HashSet
use tricti.Ast.{ResourceAccess, immutable, mutable, owned}
use tricti.Scheduler.Error.{
  read_write, write_read, write_write, SchedulerError, resource_conflict, invalid_resource_access,
  duplicate_mutable_borrow, Outcome,
}

pub record ResourceTracker : Type 0 where
  pub immutable_borrows : HashMap String (List String)
  pub mutable_borrows : HashMap String String
  pub owned_resources : HashMap String String

unfoldable pub new : ResourceTracker
new = record { immutable_borrows = []; mutable_borrows = []; owned_resources = [] }

-- `if let Some(holder) = … { if holder != system { return Err(…) } }`
unfoldable pub refuse_other :
    Option String → String → (String → SchedulerError) → Outcome (Unit {0})
refuse_other none system error = ok tt
refuse_other (some holder) system error = if holder == system then ok tt else err (error holder)

-- `if let Some(holder) = … { return Err(…) }`
unfoldable pub refuse_any : Option String → (String → SchedulerError) → Outcome (Unit {0})
refuse_any none error = ok tt
refuse_any (some holder) error = err (error holder)

-- `.iter().find(|&s| s != system).unwrap_or("unknown")`
unfoldable pub other_borrower : List String → String → String
other_borrower [] system = "unknown"
other_borrower (s ∷ ss) system = if s == system then other_borrower ss system else s

unfoldable pub is_empty {ℓ} : {A : Type ℓ} → List A → Bool
is_empty [] = true
is_empty (x ∷ xs) = false

-- The guard of a mutable borrow over the readers.
unfoldable pub refuse_other_readers :
    Option (List String) → String → (String → SchedulerError) → Outcome (Unit {0})
unfolding other_borrower is_empty HashSet.contains
refuse_other_readers none system error = ok tt
refuse_other_readers (some borrowers) system error =
    if not (is_empty borrowers)
      && (ltb 1 (length borrowers) || not (HashSet.contains borrowers system))
    then err (error (other_borrower borrowers system))
    else ok tt

-- The guard of an ownership over the readers.
unfoldable pub refuse_readers :
    Option (List String) → (String → SchedulerError) → Outcome (Unit {0})
refuse_readers none error = ok tt
refuse_readers (some []) error = ok tt
refuse_readers (some (s ∷ ss)) error = err (error s)

unfoldable pub can_access_resource :
    ResourceTracker → String → String → ResourceAccess → Outcome (Unit {0})
unfolding refuse_other refuse_any refuse_other_readers refuse_readers HashMap.get
can_access_resource t resource system immutable = do
  refuse_other (HashMap.get resource t.mutable_borrows) system
      (λ borrower. resource_conflict system borrower resource read_write)
  refuse_other (HashMap.get resource t.owned_resources) system (λ owner.
      invalid_resource_access system resource ("Resource is owned by system '" <> owner <> "'"))
can_access_resource t resource system mutable = do
  refuse_other_readers (HashMap.get resource t.immutable_borrows) system
      (λ other. resource_conflict system other resource write_read)
  refuse_other (HashMap.get resource t.mutable_borrows) system
      (λ borrower. duplicate_mutable_borrow system borrower resource)
  refuse_other (HashMap.get resource t.owned_resources) system (λ owner.
      invalid_resource_access system resource ("Resource is owned by system '" <> owner <> "'"))
can_access_resource t resource system owned = do
  refuse_readers (HashMap.get resource t.immutable_borrows)
      (λ other. resource_conflict system other resource write_read)
  refuse_any (HashMap.get resource t.mutable_borrows)
      (λ borrower. resource_conflict system borrower resource write_write)
  refuse_other (HashMap.get resource t.owned_resources) system (λ owner.
      invalid_resource_access system resource
        ("Resource is already owned by system '" <> owner <> "'"))

-- The readers after `entry(resource).or_insert_with(HashSet::new).insert(system)`.
unfoldable pub with_reader : Option (List String) → String → List String
unfolding HashSet.insert
with_reader none system = system ∷ []
with_reader (some borrowers) system = HashSet.insert system borrowers

-- The `match` of `add_access`, once the check has passed.
unfoldable pub record_access : ResourceTracker → String → String → ResourceAccess → ResourceTracker
unfolding with_reader HashMap.insert HashMap.get
record_access t resource system immutable = record t {
  immutable_borrows =
      HashMap.insert resource (with_reader (HashMap.get resource t.immutable_borrows) system)
        t.immutable_borrows;
}
record_access t resource system mutable = record t {
  mutable_borrows = HashMap.insert resource system t.mutable_borrows;
}
record_access t resource system owned = record t {
  owned_resources = HashMap.insert resource system t.owned_resources;
}

unfoldable pub add_access :
    ResourceTracker → String → String → ResourceAccess → Outcome ResourceTracker
unfolding can_access_resource record_access
add_access t resource system access = do
  can_access_resource t resource system access
  ok (record_access t resource system access)

-- `borrowers.remove(system)`, and the whole entry once no reader is left.
unfoldable pub without_reader :
    Option (List String)
    → String
    → String
    → HashMap String (List String)
    → HashMap String (List String)
unfolding is_empty HashSet.remove HashMap.insert HashMap.remove
without_reader none resource system m = m
without_reader (some borrowers) resource system m =
    let left = HashSet.remove system borrowers in
    if is_empty left then HashMap.remove resource m else HashMap.modify resource (λ _. left) m

-- `if map.get(resource) == Some(system) { map.remove(resource) }`
unfoldable pub without_holder :
    Option String → String → String → HashMap String String → HashMap String String
unfolding HashMap.remove
without_holder none resource system m = m
without_holder (some holder) resource system m =
    if holder == system then HashMap.remove resource m else m

unfoldable pub remove_access : ResourceTracker → String → String → ResourceAccess → ResourceTracker
unfolding without_reader without_holder HashMap.get
remove_access t resource system immutable = record t {
  immutable_borrows =
      without_reader (HashMap.get resource t.immutable_borrows) resource system t.immutable_borrows;
}
remove_access t resource system mutable = record t {
  mutable_borrows =
      without_holder (HashMap.get resource t.mutable_borrows) resource system t.mutable_borrows;
}
remove_access t resource system owned = record t {
  owned_resources =
      without_holder (HashMap.get resource t.owned_resources) resource system t.owned_resources;
}

-- `resources.extend(map.keys().cloned())`
unfoldable pub extend : List String → List String → List String
unfolding HashSet.insert
extend resources [] = resources
extend resources (k ∷ ks) = extend (HashSet.insert k resources) ks

unfoldable pub get_active_resources : ResourceTracker → List String
unfolding extend HashMap.keys
get_active_resources t =
    extend (extend (extend [] (HashMap.keys t.immutable_borrows)) (HashMap.keys t.mutable_borrows))
      (HashMap.keys t.owned_resources)

unfoldable pub get_immutable_borrowers : ResourceTracker → String → Option (List String)
get_immutable_borrowers t resource = HashMap.get resource t.immutable_borrows

unfoldable pub get_mutable_borrower : ResourceTracker → String → Option String
get_mutable_borrower t resource = HashMap.get resource t.mutable_borrows

unfoldable pub get_resource_owner : ResourceTracker → String → Option String
get_resource_owner t resource = HashMap.get resource t.owned_resources

unfoldable pub is_resource_available : ResourceTracker → String → Bool
unfolding HashMap.contains_key
is_resource_available t resource =
    not (HashMap.contains_key resource t.immutable_borrows)
    && not (HashMap.contains_key resource t.mutable_borrows)
    && not (HashMap.contains_key resource t.owned_resources)

pub record ResourceUsageSummary : Type 0 where
  pub total_resources : ℕ
  pub immutable_borrows : ℕ
  pub mutable_borrows : ℕ
  pub owned_resources : ℕ

unfoldable pub get_resource_summary : ResourceTracker → ResourceUsageSummary
unfolding get_active_resources
get_resource_summary t = record {
  total_resources = length (get_active_resources t);
  immutable_borrows = length t.immutable_borrows;
  mutable_borrows = length t.mutable_borrows;
  owned_resources = length t.owned_resources;
}
