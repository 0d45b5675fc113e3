-- ===== src/Lib.antt =====
-- A model of TriCTI's system scheduler, of its resource lifecycle manager, of the tables of its
-- runtime, of its handling of errors, and of the queues of its event loop.
--
-- The program. A TriCTI program is a set of systems. Each declares the resources that it reads
-- (immutable), writes (mutable) or owns. The scheduler (src/scheduler.rs) tells which systems may run at
-- the same time: a resource tracker applies the borrow rules, a conflict graph holds the pairs of systems
-- that must not run together, explicit dependencies order the systems, and a batch of systems is started
-- up to a maximum. The resource lifecycle manager (src/resource_lifecycle.rs) leases resources to the
-- tasks of the async runtime, with a queue of timeouts and a graph of dependencies between resources.
-- Both read the syntax tree (src/ast.rs). The event loop
-- (src/event_loop_manager.rs) keeps its events in a queue with priorities and its timers in a heap.
-- The table runtime (src/table_runtime.rs) stores the rows of a table by columns, with a primary key,
-- secondary indexes, and bitmaps of the rows that a predicate selects; computed columns are asked of
-- the engine in src/computed_columns.rs. The error manager (src/error_propagation.rs) keeps a chain of
-- errors for each task, finds the handlers that match an error, and answers how a task may recover.
--
-- The files.
--   Base, Base/*: names of the libraries, Boolean tests, lists, and Rust's std: `HashMap` is an
--     association list and `HashSet` a list, whose orders stand for the iteration order that Rust leaves
--     open, so a theorem about every list is one about every iteration order; `sort_by` is a stable
--     insertion; `Result` with `?` as a bind.
--   Ast: `Type`, `ResourceAccess`, `SystemParameter`, `SystemDef` of src/ast.rs, and its literals,
--     binary operators, expressions and table definitions.
--   Scheduler/Error: `ConflictType`, `SchedulerError`.
--   Scheduler/Tracker: `ResourceTracker`, every method; Tracker/Rules (the borrow rules),
--     Tracker/Shares, Drops, Exclusive and Frame, and Tracker/History (histories of accesses and releases).
--   Scheduler/Conflicts: `extract_resource_accesses`, `check_system_conflict`, `ConflictGraph`;
--     Conflicts/Compatible and Conflicts/Graph.
--   Scheduler/TypeId: `type_to_resource_id`. Scheduler/Validate: `validate_system_resources`.
--   Scheduler/State, Scheduler/System: `SchedulerState`, `SystemScheduler`, priorities and strategies.
--   Scheduler/Dependencies: `add_system`, `add_system_with_metadata`, `add_dependency`,
--     `would_create_cycle`, `dfs_check_cycle`; Dependencies/Search, Decide, Acyclic.
--   Scheduler/Run: `can_schedule_system`, `schedule_system`, `complete_system`; Run/Acquire, Run/Safe.
--   Scheduler/Batch: `get_schedulable_systems`, `schedule_batch`, statistics; Batch/Loops, Batch/Order.
--   Scheduler/Build: `build_conflict_graph`; Build/Row, Build/Clashes. Scheduler/Deadlock:
--     `detect_deadlocks`; Deadlock/Verdict. Scheduler/Visited: the measure of the graph searches. Scheduler/Session: histories of calls on the scheduler.
--   Lifecycle/Timeouts: `LeaseTimeoutManager`; Timeouts/Queue. Lifecycle/Graph:
--     `ResourceDependencyGraph`; Graph/Mirror, Settled, Cycles. Lifecycle/Manager: `ResourceLifecycleManager`, with
--     Manager/Release, Acquire, Expiry and Stats for its operations and Manager/Owner, Kept, Grants,
--     Guarded, Current, ReleaseAll, Readers and Ends for what holds of them. Lifecycle/Session: histories.
--   EventLoop/Queue: `EventQueue` and the order of its events; Queue/Order. EventLoop/Timers:
--     `TimerManager`; Timers/Fired. Both of src/event_loop_manager.rs, for any type of events. Base/BinaryHeap
--     is the heap of Rust's std: a list from which `pop` takes a greatest element.
--   Table/Float, Value, Error: `f64` as its 64 bits, `ColumnValue` with its comparison, `TableError`.
--     Table/Column: `ColumnData`; Column/Cells, Column/Kind. Table/Schema: what the declared columns say.
--     Table/Bitmap: `RowBitmap`; Bitmap/Count, Bitmap/Refine. Table/State: `Table`, and the interface
--     `LazyEvaluation` to the engine for computed columns. Table/Store: the loops
--     that complete and write the values of a row; Store/Stored, Complete, Updated. Table/Rows: `insert_row`,
--     `update_row`, `delete_row`. Table/Read: `new`, `get_row` and its kin; Read/Whole. Table/Scan:
--     `scan_all`, `scan_with_filter` and the iterator; Scan/Agree. Table/Index: the secondary indexes. Table/Predicate:
--     `build_predicate_bitmap`; Predicate/Selected, Equality, Indexed. Table/Evaluate: `evaluate_predicate`.
--     Table/Statistics: `collect_statistics`. Table/Projected: rows with some columns only.
--     Table/Calls, Steps: the calls that change a table, and its histories; Table/Keyed, Filled and Inserted
--     for what holds of them.
--   ErrorPropagation/State: `ErrorPropagationManager`, its handlers, strategies and errors.
--     ErrorPropagation/Matching: `find_matching_handlers`; Ranked. ErrorPropagation/Handle: `handle_error`,
--     `propagate_error`; Handled. ErrorPropagation/Recovery: `attempt_recovery`. ErrorPropagation/Session:
--     histories of calls.
--   Tests: each theorem with hypotheses at concrete inputs, and runs.
--
-- How the code is written down. A method with `&mut self` takes the state and returns the new one. An
-- error does not undo what was changed before it, so the state stands beside the result, not inside it.
-- A panic is `none` of an Option. `Instant::now`, `SystemTime::now` are arguments; durations of
-- the manager are nanoseconds, those of the scheduler are the milliseconds of the source. Names and error
-- texts are native strings; a reason that prints a list keeps the list. Locks are taken and released
-- within one call, so a call is one step, and interleaved tasks are a list of calls. The events that the
-- manager prints are collected in a field. `max_concurrent_systems` is a parameter of the scheduler, as
-- the number of processors is what the machine says. `usize` counters of list lengths do not wrap.
-- In a table an `i32` is its 32-bit pattern and a `u64` wraps where the code shifts or negates it, a
-- `RowId` is its number, a `BTreeMap` is a list in the order of its keys, and the engine for computed
-- columns is an instance argument, the interface `LazyEvaluation`, of which nothing is assumed.
-- The product of floats in the backoff of src/error_propagation.rs is an argument. An instant's `elapsed`
-- is a difference on the naturals, as Rust's saturates, and what a call that asks twice for one lock
-- gives is `none`.
--
-- Fuel. `dfs_check_cycle` has one unit for each registered system and one more: every call but the last
-- marks a registered system that was not visited. `detect_deadlocks` has one for each vertex of the graph
-- and one more, for the same reason. `has_cycle` and `find_cycle_to_task` have one for each key of the
-- dependencies and one more. `to_string` has one for each digit and more, and the
-- loop of `get_fired_timers` one for each timer. The loops over the rows of a table and over the words
-- of a bitmap are given the number of their turns, which is the bound that the code's range has.
--
-- Not modelled. Default values and query specifications of parameters, since the scheduler does not read
-- them; the overflow of an `Instant`; poisoned locks; the parser, the semantic checks, the code
-- generator, the query engine, the engine for computed columns, the statistics of the error manager
-- (they only read), and the async runtime around these parts.
pub mod Base
pub mod Ast
pub mod EventLoop
pub mod Lifecycle
pub mod Scheduler
pub mod Table
pub mod ErrorPropagation
pub mod Tests
