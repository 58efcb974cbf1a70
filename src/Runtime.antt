-- ===== src/Runtime.antt =====
-- The runtime control layer, crates/runtime/src: actions on the kernel, their audit trail and their
-- rollback.
pub mod Types
pub mod Recovery
pub mod Rollback
pub mod Process
pub mod Containment
pub mod Firewall
pub mod Unblocking
pub mod Audit
pub mod Trail
pub mod Resource
pub mod Limits
pub mod Systemd
pub mod FileMonitor
pub mod Manager
pub mod Execution
pub mod Orders
