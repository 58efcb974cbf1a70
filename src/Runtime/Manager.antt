-- ===== src/Runtime/Manager.antt =====
-- `RuntimeManager` of crates/runtime/src/lib.rs: it executes a decision through the engines and
-- records each action in the audit trail.
use omnisec.Prelude.{ℕ, ◌+◌, String, Option, none, some, List, [], ◌∷◌, ◌++◌, length}
use omnisec.Prelude.External.{Uuid, DateTime}
use omnisec.Decision.Types.{
  DecisionAction, allow, flag, block, restart, escalate, EnforcementDecision,
}
use omnisec.Runtime.Types.{RuntimeMode, native, simulated, RuntimeAction}
use omnisec.Runtime.Firewall.{FirewallEngine, NftCommand, Host, block_domain, active_rule_count}
use omnisec.Runtime.Resource.{ResourceEngine, active_cgroup_count}
use omnisec.Runtime.Systemd.{SystemdEngine, action_count}
use omnisec.Runtime.Process
use omnisec.Runtime.Process.{ContainmentEngine, Signals, contained_count, quarantined_count}
use omnisec.Runtime.FileMonitor.{FileMonitorEngine, new_monitor, monitor_count}
use omnisec.Runtime.Recovery.{RecoveryEngine}
use omnisec.Runtime.Audit.{KernelAuditTrail, empty_trail, record_entry, entry_count}

pub record RuntimeManager : Type 0 where
  pub network : FirewallEngine
  pub resource : ResourceEngine
  pub systemd : SystemdEngine
  pub process : ContainmentEngine
  pub file_monitor : FileMonitorEngine
  pub recovery : RecoveryEngine
  pub audit : KernelAuditTrail
  pub mode : RuntimeMode
  pub actions : List RuntimeAction

-- `mode` is what `detect_runtime_mode` answers.
unfoldable pub new_manager : RuntimeMode → RuntimeManager
unfolding new_monitor empty_trail
new_manager mode = record {
  network = record { rules = []; mode = mode };
  resource = record { cgroups = []; mode = mode };
  systemd = record { actions = []; mode = mode };
  process = record { tracked = []; mode = mode };
  file_monitor = new_monitor mode;
  recovery = record { recoverable = []; mode = mode };
  audit = empty_trail;
  mode = mode;
  actions = [];
}

unfoldable pub record_action : RuntimeManager → RuntimeAction → Uuid → DateTime → RuntimeManager
unfolding record_entry
record_action m a id now = record m {
  audit = (record_entry m.audit a.action_type a.target a.result a.duration_ms a.verified id now).0;
  actions = m.actions ++ a ∷ [];
}

-- `for action in &actions`: action i of the list gets the audit id `ids (i + n)`.
unfoldable pub record_all :
    RuntimeManager → List RuntimeAction → (ℕ → Uuid) → ℕ → DateTime → RuntimeManager
unfolding record_action
record_all m [] ids n now = m
record_all m (a ∷ as_) ids n now = record_all (record_action m a (ids n) now) as_ ids (n + 1) now

-- What an execution leaves: the manager before its actions are recorded, the actions, and what was
-- sent to the kernel.
abbrev pub Executed : Type 0
Executed = RuntimeManager × List RuntimeAction × Signals × List NftCommand

module _ (h : Host) (d : EnforcementDecision) (ids : ℕ → Uuid) (now : DateTime) where
  -- `if let Some(ref dest)`, with the ids 1 and 2 for the action and the rule
  unfoldable pub block_destination : Option String → RuntimeManager → Executed
  block_destination none m = (m, [], [], [])
  block_destination (some dest) m =
      let (network, action, commands) =
        block_domain h m.network dest d.reason (ids 1) (ids 2) now in
      (record m { network = network }, action ∷ [], [], commands)

  -- `match decision.action`, with the id 0 for the process
  unfoldable pub dispatch : DecisionAction → RuntimeManager → Executed
  unfolding block_destination
  dispatch block m = block_destination d.context.destination m
  dispatch restart m =
      let (process, action, signals) =
        omnisec.Runtime.Process.restart m.process d.pid (ids 0) now in
      (record m { process = process }, action ∷ [], signals, [])
  dispatch escalate m =
      let (process, action, signals) =
        omnisec.Runtime.Process.quarantine m.process d.pid d.agent_name (ids 0) now in
      let (m', actions, others, commands) =
        block_destination d.context.destination (record m { process = process }) in
      (m', action ∷ actions, signals ++ others, commands)
  dispatch allow m = (m, [], [], [])
  dispatch flag m = (m, [], [], [])

  unfoldable pub execute : RuntimeManager → Executed
  unfolding dispatch record_all
  execute m =
      let (m', actions, signals, commands) = dispatch d.action m in
      (record_all m' actions ids 3 now, actions, signals, commands)

pub record RuntimeStats : Type 0 where
  pub nftables_rules : ℕ
  pub cgroups_active : ℕ
  pub systemd_actions : ℕ
  pub contained_processes : ℕ
  pub quarantined_processes : ℕ
  pub file_monitors_active : ℕ
  pub audit_entries : ℕ
  pub total_actions : ℕ
  pub mode : String

abbrev pub mode_name : RuntimeMode → String
mode_name native = "Native"
mode_name simulated = "Simulated"

unfoldable pub get_stats : RuntimeManager → RuntimeStats
get_stats m = record {
  nftables_rules = active_rule_count m.network;
  cgroups_active = active_cgroup_count m.resource;
  systemd_actions = action_count m.systemd;
  contained_processes = contained_count m.process;
  quarantined_processes = quarantined_count m.process;
  file_monitors_active = monitor_count m.file_monitor;
  audit_entries = entry_count m.audit;
  total_actions = length m.actions;
  mode = mode_name m.mode;
}
