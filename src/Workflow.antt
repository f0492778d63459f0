-- ===== src/Workflow.antt =====
-- Workflows that a client submits as a whole: `workflow.create` and `workflow.spawn` of
-- crates/favetto/src/server.rs, and the graph of the catalog.
pub mod Spec
pub mod Counts
pub mod Order
pub mod Links
pub mod Drain
pub mod Visits
pub mod Accept
pub mod Progress
pub mod Create
pub mod Answers
