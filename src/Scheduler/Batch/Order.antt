-- ===== src/Scheduler/Batch/Order.antt =====
-- src/scheduler.rs: which systems `get_schedulable_systems` offers, and in which order.
