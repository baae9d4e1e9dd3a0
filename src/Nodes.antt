-- ===== src/Nodes.antt =====
-- crates/jq-node-profile: snapshots of the mesh, and the builders that check them.
pub mod Topology
pub mod Authoring
pub mod Equality
