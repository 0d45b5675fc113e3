-- ===== src/ErrorPropagation.antt =====
-- src/error_propagation.rs: the chains of errors of the tasks, the handlers and the recovery.
pub mod State
pub mod Matching
pub mod Handle
pub mod Recovery
pub mod Handled
pub mod Session
pub mod Ranked
