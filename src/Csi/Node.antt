-- ===== src/Csi/Node.antt =====
-- The node service of the plugin (crates/csi/src/node.rs).
pub mod Handlers
pub mod Validation
pub mod Mounts
pub mod Effects
