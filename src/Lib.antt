-- ===== src/Lib.antt =====
-- Omnisec is a runtime control plane for AI agents: a daemon watches processes, scores their risk,
-- decides by policies what an agent may do, enforces the decision, and recovers agents that fail.
-- This library models the parts that decide and act, and proves what they promise.
--
-- Parts and files (paths from the repository's root):
--   Decision     crates/decision/src/lib.rs: versioned policies, rule matching, human overrides and
--                the log of decisions. `DecisionEngine`'s methods are the functions of
--                Decision/Engine; `evaluate` takes its arguments as one `Request`.
--   Enforcement  crates/enforcement/src/lib.rs: the network, process and file engines, and the
--                manager that executes a decision of the decision engine through the network engine
--                and records an incident for it.
--   Restart      crates/restart/src/lib.rs: the retry loop with its delays, and the health of an agent.
--                What `restart_fn` answers at each attempt is an argument.
--   Runtime      crates/runtime/src: the engines that act on the kernel (Firewall: network.rs,
--                Process: process.rs, Resource: resource.rs, Systemd: systemd.rs, FileMonitor:
--                file_monitor.rs), the expiry of actions (Recovery: recovery.rs), the audit trail
--                (Audit: audit.rs) and the manager that executes a decision through them (Manager:
--                lib.rs). A method returns, beside its result, what it sends to the kernel: signals,
--                `nft` commands, writes to the cgroup file system, `systemctl` calls. The mode is that
--                of the build: native for Linux, simulated elsewhere, where nothing is sent. What runs
--                of calls and of decisions leave: Containment, Unblocking, Orders, Execution.
--   Reliability  crates/reliability/src: incidents (Incident: incident.rs), the health of dependencies
--                (Dependency: dependency.rs), recovery policies (Policy: policy.rs) and the detectors
--                of memory leaks (Memory: memory.rs), of hangs (Activity: activity.rs), of used-up
--                descriptors (Descriptors: fd.rs), of thread explosions (Threads: thread.rs) and of
--                CPU runaways (Cpu: cpu.rs).
--   Anomaly      crates/anomaly/src/lib.rs: the checks of an agent against its baseline (Checks), the
--                anomalies that are kept (Records), what a check and a run of them leave (Outcome, Log).
--   Security     crates/security/src/correlation.rs: the correlations between agents (Correlation for
--                traffic and risk, Sharing for destinations and hours, the analysis and the queries);
--                crates/security/src/lib.rs: the profiles of an agent (Profiles), the learning of its
--                baseline and its risk score (Risk), the manager of the profiles (Manager), and what
--                follows for the scores (Scores) and the alerts (Learning, Maturity).
--   Fingerprint  crates/fingerprint/src/lib.rs: the parts of a fingerprint (Types), its builder (Builder),
--                its versions and the drift between them (Engine); what a new version leaves of the
--                histories (History) and what a run of calls does (Versions).
--   Network      crates/network/src/lib.rs: the connections (Types), the tracker (Tracker), its queries
--                (Queries) and the destinations seen along a run (Seen).
--   Identity     crates/identity/src/lib.rs: which agent a process belongs to, the process tree, export
--                and import (Types, Engine); how the calls change the agents (Changes) and their
--                lineage (Lineage).
--   Monitoring   crates/monitoring/src/lib.rs: the health monitor (Health) and the restart engine with
--                its backoff (Retry). What the system says of a process in one check is an
--                `Observation`.
--   Prelude      the standard library as the crates use it (lists, texts, sets, the stable sort) and
--                the interfaces of external packages.
--   Tests        concrete inputs and runs.
--
-- State. A struct is a record with the source's fields, an enum a data type with its variants, a
-- method with `&mut self` a function that returns the new record beside its result. A `HashSet` is
-- a list without repetitions, a `HashMap` a list of entries (Prelude/Maps for keys that are numbers,
-- Prelude/Tables for texts), and a loop over a map follows the list. Text is the native `String`.
-- `u32` and `u64` counters are natural numbers, with the wrap-around of a release build written out
-- where the code adds to one.
--
-- External packages. `uuid::Uuid::new_v4` and `chrono::Utc::now` are arguments of the operations
-- that call them; one operation reads the clock once, but for the incidents, where each reading in an
-- operation has its own time. `chrono`'s addition of a duration is the record `Chrono`, whose law says what is documented for instants below 2 ^ 63 ns and durations
-- below 2 ^ 32 s. An `f64` is its bit pattern, and its operations are the record `FloatOps`, of
-- which no law is assumed but where a theorem names one. What `format!` makes of an f64 is the
-- record `F64Text`. `str::to_lowercase` and environment variables are parameters.
--
-- Loops run over lists, or over the rounds that are left, by structural recursion. Only the decimal
-- digits of a number (Prelude/Decimal) take fuel: 20, the number of digits that 64 bits need, and
-- more gives the same text.
--
-- Not modelled: log output, serialisation, the database, NATS and HTTP layers, the kernel side of
-- the eBPF sensor, and the crates that the manifest lists as such.
pub mod Prelude
pub mod Decision
pub mod Enforcement
pub mod Restart
pub mod Runtime
pub mod Reliability
pub mod Anomaly
pub mod Security
pub mod Fingerprint
pub mod Network
pub mod Identity
pub mod Monitoring
mod Tests
