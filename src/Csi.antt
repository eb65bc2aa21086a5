-- ===== src/Csi.antt =====
-- The CSI plugin (crates/csi): the messages of protos/csi.proto, and the services of the plugin.
pub mod Spec
pub mod Controller
pub mod Node
pub mod Identity
pub mod Services
pub mod Main
