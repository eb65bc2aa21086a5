-- ===== src/Csi/Spec.antt =====
-- The messages of protos/csi.proto.
pub mod Messages
pub mod Controller
pub mod Node
pub mod Identity
