-- ===== src/Csi/Controller.antt =====
-- The controller service of the plugin (crates/csi/src/controller.rs).
pub mod Parts
pub mod Handlers
pub mod ListVolumes
pub mod CreateVolume
pub mod Capacity
pub mod DeleteVolume
pub mod Names
pub mod Reading
