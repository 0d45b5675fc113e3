-- ===== src/Lifecycle.antt =====
-- src/resource_lifecycle.rs: leases on resources, their timeouts, and the graph of the resources'
-- dependencies.
pub mod Timeouts
pub mod Graph
pub mod Manager
pub mod Session
