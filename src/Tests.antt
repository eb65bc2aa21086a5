-- ===== src/Tests.antt =====
-- Runs at concrete data, and the theorems at inputs where their hypotheses hold.
pub mod Fixtures
pub mod Host
mod Creation
mod Lifecycle
mod Listing
mod Daemon
mod Mounting
mod Node
pub mod Staging
pub mod Separate
pub mod Table
mod Unstaging
mod Mixed
mod Contents
pub mod Provisioning
mod Panics
mod Concurrent
pub mod Refinement
