-- ===== src/Reliability.antt =====
-- The reliability layer, crates/reliability/src: incidents, dependency health, recovery policies
-- and the detectors for memory, hangs, descriptors, threads and CPU.
pub mod Incident
pub mod Lifecycle
pub mod Dependency
pub mod Checks
pub mod Policy
pub mod Memory
pub mod Samples
pub mod Activity
pub mod Hanging
pub mod Readings
pub mod Descriptors
pub mod Threads
pub mod Cpu
pub mod Flags
