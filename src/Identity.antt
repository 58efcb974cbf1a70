-- ===== src/Identity.antt =====
-- crates/identity/src/lib.rs: which agent a process belongs to, and the lineage of agents.
pub mod Types
pub mod Engine
pub mod Changes
pub mod Lineage
pub mod Import
