-- ===== src/Lifecycle/Manager/ReleaseAll.antt =====
-- src/resource_lifecycle.rs: which leases `release_all_task_resources` takes away.
use tricti.Base.{
  All, subst, ℕ, String, ◌≡◌, refl, ◌∙◌, sym, ap, true, false, not, inl, inr, none, some, List, [],
  ◌∷◌, retain, ◌==◌, ==_refl, ok, text_key, number_key, Bool-cases, arith, eq_iff,
}
use tricti.Base.HashMap
use tricti.Base.HashMap.{HashMap, HasUniqueKeys, Entries, remove-HasUniqueKeys}
use tricti.Lifecycle.Manager.{ResourceLease, ReleaseReason, ResourceLifecycleManager}
use tricti.Lifecycle.Manager.Release.{
  holds, finish_release, remove_resource_dependencies, release_resource, release_each, resources_of,
  release_all_task_resources,
}
use tricti.Lifecycle.Manager.Owner.{without, release_owned}
use tricti.Lifecycle.Manager.Kept.{IsKept}

abbrev Leases : Type 0
Leases = HashMap String ResourceLease

abbrev IsNamed : Leases → Type 0
IsNamed m = Entries (λ name lease. lease.resource_name ≡ name) m

-- The names are released one after the other from the map of leases.
abbrev remove_each : List String → Leases → Leases
remove_each [] m = m
remove_each (name ∷ names) m = remove_each names (HashMap.remove name m)

-- Every name in turn is that of a lease of the task.
abbrev AllHeld : ℕ → List String → Leases → Type 0
AllHeld task [] m = Unit
AllHeld task (name ∷ names) m =
    ((lease : ResourceLease) × (HashMap.get name m ≡ some lease) × ((lease.task_id == task) ≡ true))
    × AllHeld task names (HashMap.remove name m)

module _ (task : ℕ) (reason : ReleaseReason) where
  release_each-cons :
      (s s' : ResourceLifecycleManager) (name : String) (names : List String)
      → release_resource s name task reason ≡ (s', ok tt)
      → release_each s (name ∷ names) task reason ≡ release_each s' names task reason
  unfolding release_each
  release_each-cons s s' name names e =
      rw (ap (λ p. p.1) e, release_each) (ap (λ p. release_each p.0 names task reason) e)

  release_each-AllHeld :
      (s : ResourceLifecycleManager) (names : List String)
      → AllHeld task names s.active_leases
      → ((release_each s names task reason).1 ≡ ok tt)
        × ((release_each s names task reason).0.active_leases ≡ remove_each names s.active_leases)
  unfolding release_each finish_release remove_resource_dependencies
  release_each-AllHeld s [] h = (refl, refl)
  release_each-AllHeld s (name ∷ names) ((lease, e, own), h) =
      let s' = finish_release (without name s) name task reason in
      subst (λ r. (r.1 ≡ ok tt) × (r.0.active_leases ≡ remove_each (name ∷ names) s.active_leases))
        (sym (release_each-cons s s' name names (release_owned s name task reason lease e own)))
        (release_each-AllHeld s' names h)

remove_absent : (name : String) (m : Leases) → HashMap.get name m ≡ none → HashMap.remove name m ≡ m
unfolding HashMap.get HashMap.remove
remove_absent name [] e = refl
remove_absent name ((j, w) ∷ m) e = ground (arith, remove_absent name m)

-- The other names leave an entry where it is.
remove_each_skip :
    (j : String) (w : ResourceLease) (names : List String) (m : Leases)
    → All (λ name. (j == name) ≡ false) names
    → remove_each names ((j, w) ∷ m) ≡ (j, w) ∷ remove_each names m
unfolding HashMap.remove
remove_each_skip j w [] m h = refl
remove_each_skip j w (name ∷ names) m h =
    rw h.0 (remove_each_skip j w names (HashMap.remove name m) h.1)

AllHeld-skip :
    (task : ℕ) (j : String) (w : ResourceLease) (names : List String) (m : Leases)
    → All (λ name. (j == name) ≡ false) names
    → AllHeld task names m
    → AllHeld task names ((j, w) ∷ m)
unfolding HashMap.remove HashMap.get
AllHeld-skip task j w [] m h held = tt
AllHeld-skip task j w (name ∷ names) m h held =
    rw h.0 (held.0, AllHeld-skip task j w names (HashMap.remove name m) h.1 held.1)

resources_of_absent :
    (task : ℕ) (j : String) (m : Leases)
    → HashMap.get j m ≡ none
    → IsNamed m
    → All (λ name. (j == name) ≡ false) (resources_of task m)
unfolding resources_of retain HashMap.get
resources_of_absent task j [] e n = tt
resources_of_absent task j ((k, w) ∷ m) e n = elim (Bool-cases (holds task (k, w))) [
  | inl h ↦ rw h (
    ground (arith, e, n.0, eq_iff j w.resource_name, eq_iff k j),
    resources_of_absent task j m (ground (arith, e)) n.1,
  )
  | inr h ↦ rw h (resources_of_absent task j m (ground (arith, e)) n.1)
]

remove_first :
    (j : String) (w : ResourceLease) (m : Leases)
    → HashMap.get j m ≡ none
    → HashMap.remove j ((j, w) ∷ m) ≡ m
unfolding HashMap.remove
remove_first j w m e = rw (==_refl j) (remove_absent j m e)

-- What the loop must be given: each of the names is held, and `rest` is left.
abbrev Releases : ℕ → List String → Leases → Leases → Type 0
Releases task names m rest = AllHeld task names m × (remove_each names m ≡ rest)

Releases-first :
    (task : ℕ) (j : String) (w : ResourceLease) (names : List String) (m rest : Leases)
    → HashMap.get j m ≡ none
    → (w.task_id == task) ≡ true
    → Releases task names m rest
    → {name : String} → name ≡ j
    → Releases task (name ∷ names) ((j, w) ∷ m) rest
unfolding HashMap.get
Releases-first task j w names m rest e own (held, left) p =
    subst (λ name. Releases task (name ∷ names) ((j, w) ∷ m) rest) (sym p)
      (
        (
          (w, rw (==_refl j) refl, own),
          subst (λ n. AllHeld task names n) (sym (remove_first j w m e)) held,
        ),
        ap (remove_each names) (remove_first j w m e) ∙ left,
      )

Releases-skip :
    (task : ℕ) (j : String) (w : ResourceLease) (names : List String) (m rest : Leases)
    → All (λ name. (j == name) ≡ false) names
    → Releases task names m rest
    → Releases task names ((j, w) ∷ m) ((j, w) ∷ rest)
Releases-skip task j w names m rest h (held, left) = (
  AllHeld-skip task j w names m h held,
  remove_each_skip j w names m h ∙ ap (λ n. (j, w) ∷ n) left,
)

-- The loop's list names the task's leases, and releasing them leaves the other leases.
resources_of-Releases :
    (task : ℕ) (m : Leases)
    → HasUniqueKeys m
    → IsNamed m
    → Releases task (resources_of task m) m (retain (λ e. not (holds task e)) m)
unfolding resources_of retain
resources_of-Releases task [] u n = (tt, refl)
resources_of-Releases task ((j, w) ∷ m) u n =
    let before = resources_of-Releases task m u.1 n.1 in
    elim (Bool-cases (holds task (j, w))) [
      | inl h ↦ rw h (Releases-first task j w (resources_of task m) m _ u.0 (own h) before n.0)
      | inr h ↦ rw h (
          Releases-skip task j w (resources_of task m) m _ (resources_of_absent task j m u.0 n.1)
            before)
    ]
  where
    own : holds task (j, w) ≡ true → (w.task_id == task) ≡ true
    own h = h

-- Where the leases are entered once and by their names, releasing all of a task's resources succeeds:
-- it reports the names of the task's leases, takes those leases away, and keeps every other lease in
-- its place.
pub release_all_task_resources_lem :
    (s : ResourceLifecycleManager) (task : ℕ) (reason : ReleaseReason)
    → IsKept s
    → ((release_all_task_resources s task reason).1 ≡ ok (resources_of task s.active_leases))
      × ((release_all_task_resources s task reason).0.active_leases
          ≡ retain (λ e. not (e.1.task_id == task)) s.active_leases)
unfolding release_all_task_resources holds
release_all_task_resources_lem s task reason k =
    let (held, left) = resources_of-Releases task s.active_leases k.unique k.named in
    let (done, leases) =
      release_each-AllHeld task reason s (resources_of task s.active_leases) held in
    (
      rw (done, release_all_task_resources) refl,
      rw (done, release_all_task_resources) (leases ∙ left),
    )
