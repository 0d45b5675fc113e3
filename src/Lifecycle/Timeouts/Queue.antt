-- ===== src/Lifecycle/Timeouts/Queue.antt =====
-- src/resource_lifecycle.rs: the order of the timeouts in `LeaseTimeoutManager`.
use mathlib.Core.List.{Perm}
use mathlib.Core.List.Perm
use tricti.Base.{
  ℕ, zero, suc, ◌+◌, String, ◌≡◌, refl, Bool, true, false, not, inl, inr, List, [], ◌∷◌, map, ltb,
  leb, retain, All, All-map, All-retain, Bool-cases, arith,
}
use tricti.Base.Sort.{IsSorted}
use tricti.Lifecycle.Timeouts.{
  LeaseTimeout, insertion_index, insert_at, schedule_timeout, cancel_timeout, is_due,
  get_expired_timeouts,
}

unfoldable pub is_earlier : LeaseTimeout → LeaseTimeout → Bool
is_earlier a b = leb a.timeout_at b.timeout_at

-- What the queue's entry says of its lease.
abbrev pub lease_of : LeaseTimeout → String × ℕ
lease_of timeout = (timeout.resource_name, timeout.task_id)

abbrev pub InOrder : List LeaseTimeout → Type 0
InOrder timeouts = IsSorted is_earlier timeouts

insert_at-perm {ℓ} : {A : Type ℓ} (i : ℕ) (x : A) (ys : List A) → Perm (insert_at i x ys) (x ∷ ys)
unfolding insert_at
insert_at-perm zero x ys = Perm.refl _
insert_at-perm (suc i) x [] = Perm.refl _
insert_at-perm (suc i) x (y ∷ ys) =
    Perm.trans (Perm.cons y (insert_at-perm i x ys)) (Perm.swap x y ys)

place : LeaseTimeout → List LeaseTimeout → List LeaseTimeout
place t ts = insert_at (insertion_index t ts) t ts

place-All :
    (b t : LeaseTimeout) (ts : List LeaseTimeout)
    → is_earlier b t ≡ true
    → All (λ u. is_earlier b u ≡ true) ts
    → All (λ u. is_earlier b u ≡ true) (place t ts)
unfolding place insertion_index insert_at
place-All b t [] e h = (e, tt)
place-All b t (u ∷ ts) e h = elim (Bool-cases (ltb t.timeout_at u.timeout_at)) [
  | inl lt ↦ rw lt (e, h)
  | inr ge ↦ rw ge (h.0, place-All b t ts e h.1)
]

place-InOrder : (t : LeaseTimeout) (ts : List LeaseTimeout) → InOrder ts → InOrder (place t ts)
unfolding place insertion_index insert_at is_earlier
place-InOrder t [] s = (tt, tt)
place-InOrder t (u ∷ ts) s = elim (Bool-cases (ltb t.timeout_at u.timeout_at)) [
  | inl lt ↦ rw lt ((ground arith, All-map _ _ (λ v h. ground arith) ts s.0), s)
  | inr ge ↦ rw ge (place-All u t ts (ground arith) s.0, place-InOrder t ts s.1)
]

retain-InOrder :
    (p : LeaseTimeout → Bool) (ts : List LeaseTimeout) → InOrder ts → InOrder (retain p ts)
unfolding retain
retain-InOrder p [] s = tt
retain-InOrder p (t ∷ ts) s = elim (Bool-cases (p t)) [
  | inl e ↦ rw e (All-retain _ p ts s.0, retain-InOrder p ts s.1)
  | inr e ↦ rw e (retain-InOrder p ts s.1)
]

-- Scheduling keeps the queue in the order of its deadlines and adds one entry, which expires when the
-- lease's duration has passed; cancelling keeps the order too.
pub schedule_timeout-InOrder :
    (now : ℕ) (timeouts : List LeaseTimeout) (name : String) (task duration : ℕ)
    → InOrder timeouts
    → InOrder (schedule_timeout now timeouts name task duration)
      × InOrder (cancel_timeout timeouts name task)
      × Perm (schedule_timeout now timeouts name task duration) (
          (record { resource_name = name; task_id = task; timeout_at = now + duration }) ∷ timeouts)
unfolding schedule_timeout cancel_timeout place
schedule_timeout-InOrder now timeouts name task duration s =
    (place-InOrder _ timeouts s, retain-InOrder _ timeouts s, insert_at-perm _ _ timeouts)

none_due :
    (now : ℕ) (ts : List LeaseTimeout)
    → All (λ t. is_due now t ≡ false) ts
    → (retain (λ t. not (is_due now t)) ts ≡ ts) × (retain (is_due now) ts ≡ [])
unfolding retain
none_due now [] h = (refl, refl)
none_due now (t ∷ ts) h = let (same, empty) = none_due now ts h.1 in ground arith

none_due_later :
    (now : ℕ) (t : LeaseTimeout) (ts : List LeaseTimeout)
    → is_due now t ≡ false
    → InOrder (t ∷ ts)
    → All (λ u. is_due now u ≡ false) ts
unfolding is_due is_earlier
none_due_later now t ts early s = All-map _ _ (λ u h. ground arith) ts s.0

-- In a queue that is in order, exactly the entries whose deadline has come are given out, in the
-- order of their deadlines, and exactly the others are left, although the loop stops at the first
-- entry that is not due.
pub get_expired_timeouts_lem :
    (now : ℕ) (timeouts : List LeaseTimeout)
    → InOrder timeouts
    → get_expired_timeouts now timeouts
      ≡ (retain (λ t. not (is_due now t)) timeouts, map lease_of (retain (is_due now) timeouts))
unfolding get_expired_timeouts retain
get_expired_timeouts_lem now [] s = refl
get_expired_timeouts_lem now (t ∷ ts) s = elim (Bool-cases (is_due now t)) [
  | inl due ↦ rw (due, get_expired_timeouts_lem now ts s.1) refl
  | inr early ↦
      rw
        (
          early,
          (none_due now ts (none_due_later now t ts early s)).0,
          (none_due now ts (none_due_later now t ts early s)).1,
        )
        refl
]

pub get_expired_timeouts-InOrder :
    (now : ℕ) (timeouts : List LeaseTimeout)
    → InOrder timeouts
    → InOrder (get_expired_timeouts now timeouts).0
get_expired_timeouts-InOrder now ts s =
    rw (get_expired_timeouts_lem now ts s) (retain-InOrder _ ts s)
