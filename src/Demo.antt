-- ===== src/Demo.antt =====
-- crates/demo.
pub mod Frames
pub mod Pump
pub mod Relay
pub mod Attempts
pub mod Views
