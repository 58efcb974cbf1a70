-- ===== src/Anomaly.antt =====
-- crates/anomaly/src/lib.rs: the checks of an agent's behaviour against its baseline, and the anomalies found.
pub mod Types
pub mod Checks
pub mod Records
pub mod Outcome
pub mod Log
