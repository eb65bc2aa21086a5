-- ===== src/System.antt =====
-- The programs together: the controller of the plugin (crates/csi) as a client of volumed
-- (crates/volumed), over a lawful lvm2_cmd, and the node as a client of mountd (crates/mountd).
pub mod Managed
pub mod Client
pub mod MountHost
pub mod Store
pub mod Views
pub mod Creating
pub mod Deleting
pub mod Listing
pub mod Calls
pub mod Concurrent
pub mod Mixed
pub mod Volumes
pub mod Nodes
pub mod Staged
pub mod NodeCalls
pub mod Provisioning
pub mod Panics
