-- ===== src/Tests.antt =====
-- Concrete inputs at which the theorems apply, and runs of the definitions.
mod Fixtures
mod DecisionExamples
mod OverrideExamples
mod EnforcementExamples
mod RestartExamples
mod RuntimeExamples
mod ManagerExamples
mod ReliabilityExamples
mod DetectorExamples
mod IdentityExamples
mod MonitoringExamples
mod SecurityExamples
mod ProfileExamples
mod FingerprintExamples
mod NetworkExamples
