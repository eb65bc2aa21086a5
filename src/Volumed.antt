-- ===== src/Volumed.antt =====
-- The volumed service (crates/volumed): the messages of protos/volumed.proto, the configuration,
-- the six handlers, the interceptor and the start of the program.
pub mod Spec
pub mod Server
pub mod Main
