-- ===== src/Link/Runtime.antt =====
-- crates/jq-link-profile/src/task.rs, with cast.rs, notify.rs and session.rs as far as it calls them:
-- the single owner of the radio state. A method takes the task and returns the next one.
pub mod State
pub mod Ingress
pub mod Channels
pub mod Dispatch
pub mod Peers
pub mod Starting
pub mod Peripheral
pub mod Loop
