-- ===== src/Link.antt =====
-- crates/jq-link-profile: the BLE link profile.
pub mod Gatt
pub mod Sessions
pub mod Startup
pub mod Host
pub mod Cast
pub mod Runtime
