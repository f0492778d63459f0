-- ===== src/Examples.antt =====
-- Concrete databases and states, tests that run the definitions on them, and the theorems at them.
pub mod Data
pub mod Stored
pub mod Attempted
pub mod Served
pub mod Parsed
pub mod Submitted
pub mod Edited
pub mod Streamed
pub mod Watched
pub mod Named
