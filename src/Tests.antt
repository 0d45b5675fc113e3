-- ===== src/Tests.antt =====
-- Sample inputs, and each theorem with hypotheses at one of them.
mod Samples
mod TrackerTests
mod SchedulerTests
mod GraphTests
mod TableTests
mod ErrorTests
mod EventLoopTests
mod LifecycleTests
