-- ===== src/Enforcement.antt =====
-- Logical enforcement, crates/enforcement/src/lib.rs: destination lists, executables, file paths,
-- and the manager that records an incident for each decision.
pub mod Network
pub mod Process
pub mod FileAccess
pub mod Manager
pub mod Blocking
pub mod Executables
pub mod Incidents
