-- ===== src/Restart.antt =====
-- The restart engine, crates/restart/src/lib.rs.
pub mod Engine
pub mod Attempts
pub mod Health
