-- ===== src/Fingerprint.antt =====
-- crates/fingerprint/src/lib.rs: how the fingerprint of an agent is built and versioned, and how far two are apart.
pub mod Types
pub mod Builder
pub mod Engine
pub mod History
pub mod Versions
