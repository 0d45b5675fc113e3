-- ===== src/Scheduler/Error.antt =====
-- src/scheduler.rs: conflict kinds and the scheduler's errors.
use tricti.Base.{List, String}
use tricti.Base.Result.{Result}

pub data ConflictType : Type 0 where
  no_conflict read_write write_read write_write : ConflictType

pub data SchedulerError : Type 0 where
  resource_conflict :
      (system1 system2 resource : String) (conflict_type : ConflictType) → SchedulerError
  deadlock_detected : (cycle : List String) → SchedulerError
  invalid_resource_access : (system resource reason : String) → SchedulerError
  duplicate_mutable_borrow : (system1 system2 resource : String) → SchedulerError
  scheduling_failure : (reason : String) → SchedulerError

abbrev pub Outcome {ℓ} : Type ℓ → Type ℓ
Outcome A = Result SchedulerError A
