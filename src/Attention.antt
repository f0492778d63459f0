-- ===== src/Attention.antt =====
-- The attention watcher, which mirrors "the agent waits for the user" onto the task:
-- crates/favetto/src/attention.rs.
pub mod Debouncer
pub mod Waiting
pub mod Watch
pub mod Writes
pub mod Moves
pub mod Loop
pub mod Rests
pub mod Mirrors
