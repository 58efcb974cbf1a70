-- ===== src/Monitoring/Health.antt =====
-- `HealthMonitor` of crates/monitoring/src/lib.rs. What the system says of a process in one check is
-- an observation.
use text.Mathlib.Text.{◌==◌ as str_eq}
use omnisec.Prelude.{
  ℕ, ◌+◌, ◌-◌, ◌%◌, ◌^◌, String, Bool, true, false, not, ◌&&◌, ◌||◌, ◌==◌, Option, none, some, List,
  [], ◌∷◌, ◌++◌, map, leb, if◌then◌else◌, length, retain,
}
use omnisec.Prelude.Maps.{NatMap, get, put, erase, alter, put_new}
use omnisec.Prelude.External.{F64, FloatOps}

pub data AgentHealthState : Type 0 where
  unknown healthy warning failed restarting : AgentHealthState

unfoldable pub as_str : AgentHealthState → String
as_str unknown = "unknown"
as_str healthy = "healthy"
as_str warning = "warning"
as_str failed = "failed"
as_str restarting = "restarting"

unfoldable pub from_str : String → AgentHealthState
from_str s =
    if str_eq s "healthy"
    then healthy
    else if str_eq s "warning"
    then warning
    else if str_eq s "failed"
    then failed
    else if str_eq s "restarting"
    then restarting
    else unknown

abbrev pub is_down : AgentHealthState → Bool
is_down failed = true
is_down restarting = true
is_down unknown = false
is_down healthy = false
is_down warning = false

abbrev pub is_failed : AgentHealthState → Bool
is_failed failed = true
is_failed restarting = false
is_failed unknown = false
is_failed healthy = false
is_failed warning = false

pub record HealthStatus : Type 0 where
  pub pid : ℕ
  pub name : String
  pub state : AgentHealthState
  pub alive : Bool
  pub cpu_percent : F64
  pub memory_mb : F64
  pub consecutive_failures : ℕ

-- `AgentRestarted` is not made in this file.
pub data HealthEvent : Type 0 where
  agent_died : ℕ → String → HealthEvent
  agent_unhealthy : ℕ → String → String → HealthEvent
  agent_recovered : ℕ → String → HealthEvent
  agent_restarted : ℕ → String → ℕ → HealthEvent

pub record HealthMonitor : Type 0 where
  pub agents : NatMap HealthStatus
  pub failure_threshold : ℕ
  pub last_cpu_ticks : NatMap ℕ
  pub zero_delta_cycles : NatMap ℕ
  pub hang_threshold_cycles : ℕ

abbrev pub u32_mod : ℕ
u32_mod = 2 ^ 32

unfoldable pub with_failure_threshold : ℕ → HealthMonitor
with_failure_threshold threshold = record {
  agents = [];
  failure_threshold = threshold;
  last_cpu_ticks = [];
  zero_delta_cycles = [];
  hang_threshold_cycles = 6;
}

unfoldable pub new_health_monitor : HealthMonitor
unfolding with_failure_threshold
new_health_monitor = with_failure_threshold 3

abbrev pub fresh_status : FloatOps → ℕ → String → HealthStatus
fresh_status f pid name = record {
  pid = pid;
  name = name;
  state = unknown;
  alive = true;
  cpu_percent = f.literal 0 1;
  memory_mb = f.literal 0 1;
  consecutive_failures = 0;
}

unfoldable pub register_health : FloatOps → HealthMonitor → ℕ → String → HealthMonitor
unfolding put_new
register_health f m pid name = record m { agents = put_new m.agents pid (fresh_status f pid name) }

unfoldable pub unregister_health : HealthMonitor → ℕ → HealthMonitor
unregister_health m pid = record m { agents = erase m.agents pid }

abbrev pub put_state : AgentHealthState → HealthStatus → HealthStatus
put_state state s = record s { state = state }

unfoldable pub set_agent_state : HealthMonitor → ℕ → AgentHealthState → HealthMonitor
set_agent_state m pid state = record m { agents = alter m.agents pid (put_state state) }

unfoldable pub get_agent_state : HealthMonitor → ℕ → Option AgentHealthState
get_agent_state m pid = elim (get m.agents pid) [ none ↦ none | some s ↦ some s.state ]

-- The answers of `check_process_alive`, `get_process_stats` and `read_cpu_ticks`.
pub record Observation : Type 0 where
  pub is_alive : Bool
  pub stats : Option (F64 × F64)
  pub ticks : Option ℕ

abbrev pub or_zero : Option ℕ → ℕ
or_zero none = 0
or_zero (some n) = n

-- `last.map(|l| current_ticks.saturating_sub(l)).unwrap_or(1)`
abbrev pub tick_delta : ℕ → Option ℕ → ℕ
tick_delta current none = 1
tick_delta current (some l) = current - l

-- The hang detection of `check_health`, with its answer `is_hung`.
unfoldable pub detect_hung : HealthMonitor → ℕ → Option ℕ → HealthMonitor × Bool
detect_hung m pid none = (m, false)
detect_hung m pid (some current) =
    let delta = tick_delta current (get m.last_cpu_ticks pid) in
    let count = (or_zero (get m.zero_delta_cycles pid) + 1) % u32_mod in
    if delta == 0
    then (
      record m {
        last_cpu_ticks = put m.last_cpu_ticks pid current;
        zero_delta_cycles = put m.zero_delta_cycles pid count;
      },
      leb m.hang_threshold_cycles count,
    )
    else (
      record m {
        last_cpu_ticks = put m.last_cpu_ticks pid current;
        zero_delta_cycles = erase m.zero_delta_cycles pid;
      },
      false,
    )

-- The branch for a live process, once its hang is known.
unfoldable pub seen_alive :
    ℕ → HealthStatus → Option (F64 × F64) → Bool → HealthStatus × List HealthEvent
seen_alive pid s stats is_hung =
    let was_dead = not s.alive || is_down s.state in
    (
      record s {
        alive = true;
        consecutive_failures = 0;
        cpu_percent = elim stats [ none ↦ s.cpu_percent | some x ↦ x.0 ];
        memory_mb = elim stats [ none ↦ s.memory_mb | some x ↦ x.1 ];
        state = if is_hung then warning else healthy;
      },
      if is_hung
          then agent_unhealthy pid s.name "process appears hung (zero CPU delta)" ∷ []
          else if was_dead
          then agent_recovered pid s.name ∷ []
          else [],
    )

-- The branch for a dead process.
unfoldable pub seen_dead : ℕ → ℕ → HealthStatus → HealthStatus × List HealthEvent
seen_dead threshold pid s =
    let failures = (s.consecutive_failures + 1) % u32_mod in
    if leb threshold failures && s.alive
    then (
      record s { consecutive_failures = failures; alive = false; state = failed },
      agent_died pid s.name ∷ [],
    )
    else if leb 1 failures && s.alive
    then (record s { consecutive_failures = failures; state = warning }, [])
    else (record s { consecutive_failures = failures }, [])

-- The body of the loop of `check_health` for a process with a status.
unfoldable pub check_status :
    HealthMonitor → ℕ → Observation → HealthStatus → HealthMonitor × List HealthEvent
unfolding detect_hung seen_alive seen_dead
check_status m pid o s =
    if o.is_alive
    then (let (m', is_hung) = detect_hung m pid o.ticks in
        let (s', events) = seen_alive pid s o.stats is_hung in
        (record m' { agents = put m'.agents pid s' }, events))
    else (let (s', events) = seen_dead m.failure_threshold pid s in
        (
          record m {
            agents = put m.agents pid s';
            zero_delta_cycles = erase m.zero_delta_cycles pid;
            last_cpu_ticks = erase m.last_cpu_ticks pid;
          },
          events,
        ))

unfoldable pub check_process : HealthMonitor → ℕ → Observation → HealthMonitor × List HealthEvent
unfolding check_status
check_process m pid o = elim (get m.agents pid) [ none ↦ (m, []) | some s ↦ check_status m pid o s ]

-- `for pid in pids`
unfoldable pub check_all :
    HealthMonitor → (ℕ → Observation) → List ℕ → HealthMonitor × List HealthEvent
unfolding check_process
check_all m observe [] = (m, [])
check_all m observe (pid ∷ pids) =
    let (m', events) = check_process m pid (observe pid) in
    let (m'', others) = check_all m' observe pids in (m'', events ++ others)

unfoldable pub check_health : HealthMonitor → (ℕ → Observation) → HealthMonitor × List HealthEvent
unfolding check_all
check_health m observe = check_all m observe (map (λ e. e.0) m.agents)

unfoldable pub agent_count : HealthMonitor → ℕ
agent_count m = length m.agents

unfoldable pub alive_count : HealthMonitor → ℕ
alive_count m = length (retain (λ e. e.1.alive) m.agents)

unfoldable pub failed_count : HealthMonitor → ℕ
failed_count m = length (retain (λ e. is_failed e.1.state) m.agents)
