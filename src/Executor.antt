-- ===== src/Executor.antt =====
-- The executor: crates/favetto/src/executor.rs, and what it shares with the server and the
-- attention watcher through `State`.
pub mod State
pub mod Enqueue
pub mod Truncate
pub mod Bounds
pub mod Outcome
pub mod Envelope
pub mod Shape
pub mod Join
pub mod Dependents
pub mod Starts
pub mod Started
pub mod Run
pub mod Reconcile
pub mod Safe
pub mod Attempts
pub mod Settle
pub mod Recovery
pub mod Restart
pub mod Barrier
pub mod Claims
pub mod Branch
pub mod Suffix
pub mod Resubmit
pub mod Worktrees
pub mod Reclaim
