-- ===== src/Table.antt =====
-- src/table_runtime.rs: the columnar tables of the runtime.
pub mod Float
pub mod Value
pub mod Error
pub mod Column
pub mod Schema
pub mod Bitmap
pub mod State
pub mod Store
pub mod Rows
pub mod Read
pub mod Scan
pub mod Index
pub mod Predicate
pub mod Evaluate
pub mod Statistics
pub mod Projected
pub mod Calls
pub mod Steps
pub mod Keyed
pub mod Filled
pub mod Inserted
