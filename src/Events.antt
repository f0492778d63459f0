-- ===== src/Events.antt =====
-- The events on their way to a client: crates/favetto/src/event_bus.rs, and their reception in
-- crates/favetto-tui/src/tui/app/mod.rs.
pub mod Stream
pub mod Numbers
pub mod Emissions
pub mod Ingest
pub mod Delivery
