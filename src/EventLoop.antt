-- ===== src/EventLoop.antt =====
-- src/event_loop_manager.rs: the queue of events and the timers of the event loop. What an event
-- carries is a parameter of both, since neither looks into it.
pub mod Queue
pub mod Timers
