-- ===== src/KeyPreflight.antt =====
-- The read-only preflight of backblaze-b2/scripts/capability_remediation_preflight.py.
pub mod Client
pub mod Run
pub mod Doppler
