-- ===== src/Store.antt =====
-- The SQLite persistence of the daemon, crates/favetto/src/db.rs: the tables of the schema as
-- lists of rows, and each function as the statement that it executes. A statement is atomic and
-- does not fail; a function that returns whether a row changed returns it beside the new state.
-- The current time and fresh UUIDs are arguments.
pub mod Schema
pub mod Tasks
pub mod Runs
pub mod Queue
pub mod Prune
pub mod Lifecycle
pub mod Dispatch
pub mod Live
pub mod Keeps
pub mod Newest
pub mod Retention
