-- ===== src/S3Probe.antt =====
-- The S3 compatibility probe, backblaze-b2/scripts/s3_compatibility_probe.py.
pub mod Recorder
pub mod Listing
pub mod Transaction
pub mod Credentials
pub mod Preflight
pub mod Session
pub mod Transport
