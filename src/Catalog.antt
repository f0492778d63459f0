-- ===== src/Catalog.antt =====
-- The task catalog: the definition that a task file gives, crates/favetto-core/src/tasks.rs and
-- crates/favetto-wire/src/task_var.rs, the reading of `needs`, and the checks of a header.
pub mod Def
pub mod Needs
pub mod Validate
pub mod Dependencies
pub mod Headers
pub mod Graph
pub mod Names
pub mod Reorder
pub mod Repos
pub mod Qualified
pub mod Resolved
