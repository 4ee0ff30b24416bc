-- ===== src/KeyCreation.antt =====
-- The creation of a key, backblaze-b2/scripts/replacement_key_creation.py.
pub mod Creation
pub mod Report
