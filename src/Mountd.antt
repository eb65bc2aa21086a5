-- ===== src/Mountd.antt =====
-- The mountd service (crates/mountd): the messages of protos/mountd.proto, the configuration with
-- its access check, the three handlers and the start of the program.
pub mod Spec
pub mod Config
pub mod Server
pub mod Table
pub mod Main
