-- ===== src/Server.antt =====
-- The RPC server's writes to the tasks: crates/favetto/src/server.rs, and the single-use
-- credentials of crates/favetto/src/ticket.rs and crates/favetto/src/pair.rs.
pub mod Tasks
pub mod Guards
pub mod Cancels
pub mod Credentials
pub mod SingleUse
