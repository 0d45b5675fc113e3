-- ===== src/Lifecycle/Manager/Current.antt =====
-- src/resource_lifecycle.rs: what `process_expired_leases` leaves, and what stops it.
use tricti.Base.{ℕ, String, ◌≡◌, false, List, All, text_key, number_key}
use tricti.Base.HashMap
use tricti.Base.HashMap.{get-insert, get-remove}
use tricti.Lifecycle.Timeouts.{LeaseTimeout, is_due}
use tricti.Lifecycle.Manager.{lease_expiry, LifecycleEvent, ResourceLifecycleManager}
use tricti.Lifecycle.Manager.Release.{release_resource}
use tricti.Lifecycle.Manager.Guarded.{IsGuarded}

module _ (s : ResourceLifecycleManager) (name : String) (task : ℕ) (rest : List (String × ℕ))
    (events : List LifecycleEvent) where
  abbrev after_first : ResourceLifecycleManager
  after_first = (release_resource s name task lease_expiry).0

module _ (now : ℕ) where
  -- No lease is left past its time, and each will be ended later.
  abbrev pub IsCurrent : ResourceLifecycleManager → Type 0
  IsCurrent s = IsGuarded s × All (λ timeout. is_due now timeout ≡ false) s.timeouts

-- The timeouts that were due have left the queue when the loop starts.
abbrev pub popped : List LeaseTimeout → ResourceLifecycleManager → ResourceLifecycleManager
popped left s = record s { timeouts = left }
