-- ===== src/Client.antt =====
-- crates/jq-client.
pub mod Framing
pub mod Multicast
pub mod Effects
pub mod Bridge
pub mod Snapshot
pub mod Projector
pub mod Routing
pub mod Task
