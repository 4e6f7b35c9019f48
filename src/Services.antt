-- ===== src/Services.antt =====
-- netbox_openbao/services.py: coordination between the database, the secret store and the audit.
pub mod Audit
pub mod Access
pub mod Projection
pub mod Deletion
pub mod Store
pub mod Staging
pub mod Reveal
