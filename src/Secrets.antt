-- ===== src/Secrets.antt =====
-- netbox_openbao/secrets: the credential types, the validation of payloads, the extraction of
-- public metadata, and the public identity of SSH keys.
pub mod Schema
pub mod Extractors
pub mod Registry
pub mod Identity
