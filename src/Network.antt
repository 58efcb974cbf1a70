-- ===== src/Network.antt =====
-- crates/network/src/lib.rs: the connections of the agents' processes and the destinations they reach.
pub mod Types
pub mod Tracker
pub mod Queries
pub mod Seen
