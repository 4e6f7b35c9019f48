-- ===== src/Administration.antt =====
-- netbox_openbao/administration: the clients of the server's own administration, as far as they
-- check what comes in and what comes back.
pub mod Values
pub mod Cluster
pub mod Snapshots
pub mod Wrapping
pub mod Redaction
pub mod MountedPaths
pub mod Contract
