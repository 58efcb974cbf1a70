-- ===== src/Security.antt =====
-- crates/security/src: the profiles and risk scores of agents, and correlations between their activities.
pub mod Snapshots
pub mod Correlation
pub mod Sharing
pub mod Globals
pub mod Profiles
pub mod Risk
pub mod Scores
pub mod Learning
pub mod Maturity
pub mod Manager
