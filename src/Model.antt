-- ===== src/Model.antt =====
-- The domain types that the daemon and its clients share: crates/favetto-wire/src/model.rs and
-- the token counters of agent_state.rs. A UUID is a number, a timestamp the milliseconds that
-- the database stores, an f64 its bit pattern.
pub mod Status
pub mod EventKind
pub mod Prompt
pub mod Task
pub mod Agent
pub mod Codec
