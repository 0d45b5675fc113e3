-- ===== src/Scheduler.antt =====
-- src/scheduler.rs: the borrow-safe system scheduler.
pub mod Error
pub mod Tracker
pub mod Conflicts
pub mod TypeId
pub mod State
pub mod System
pub mod Validate
pub mod Dependencies
pub mod Run
pub mod Batch
pub mod Build
pub mod Visited
pub mod Deadlock
pub mod Session
