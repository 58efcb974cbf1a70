-- ===== src/Decision.antt =====
-- The decision engine, crates/decision/src/lib.rs: versioned policies, rule matching, human
-- overrides and the log of decisions.
pub mod Types
pub mod Matching
pub mod Engine
pub mod Defaults
pub mod Conditions
pub mod Priority
pub mod Policies
pub mod Overrides
pub mod Expiry
pub mod Log
pub mod Builtin
