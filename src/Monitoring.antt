-- ===== src/Monitoring.antt =====
-- Health monitoring, crates/monitoring/src/lib.rs: the health monitor and the restart engine with
-- exponential backoff.
pub mod Health
pub mod Machine
pub mod Local
pub mod Backoff
pub mod Retry
pub mod Pacing
pub mod Death
pub mod Rounds
