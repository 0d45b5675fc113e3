-- ===== src/Lifecycle/Manager/Stats.antt =====
-- src/resource_lifecycle.rs: `get_resource_stats` and what it computes.
use tricti.Base.{
  ℕ, ◌+◌, ◌-◌, ◌/◌, ◌%◌, ◌^◌, String, Option, none, some, [], ◌∷◌, length, nat_beq, if◌then◌else◌,
}
use tricti.Base.HashMap.{HashMap}
use tricti.Lifecycle.Manager.{ResourceLease, ResourceLifecycleManager}

pub record ResourceStats : Type 0 where
  pub active_leases : ℕ
  pub total_resources : ℕ
  pub average_lease_duration : ℕ
  pub resource_contention_count : ℕ

-- The sum of the leases' ages.
unfoldable pub total_duration : ℕ → HashMap String ResourceLease → ℕ
total_duration now [] = 0
total_duration now ((_, lease) ∷ leases) = (now - lease.acquired_at) + total_duration now leases

-- `none` is the panic of a division by a number of leases that `as u32` has cut to zero.
unfoldable pub calculate_average_lease_duration : ℕ → HashMap String ResourceLease → Option ℕ
unfolding total_duration
calculate_average_lease_duration now [] = some 0
calculate_average_lease_duration now (entry ∷ leases) =
    let count = length (entry ∷ leases) % 2 ^ 32 in
    if nat_beq count 0 then none else some (total_duration now (entry ∷ leases) / count)

unfoldable pub calculate_contention_count : HashMap String ResourceLease → ℕ
calculate_contention_count leases = 0

unfoldable pub get_resource_stats : ℕ → ResourceLifecycleManager → Option ResourceStats
unfolding calculate_average_lease_duration calculate_contention_count
get_resource_stats now s = elim (calculate_average_lease_duration now s.active_leases) [
  | none ↦ none
  | some average ↦ some (record {
    active_leases = length s.active_leases;
    total_resources = length s.resource_graph.dependencies + length s.resource_pools;
    average_lease_duration = average;
    resource_contention_count = calculate_contention_count s.active_leases;
  })
]
