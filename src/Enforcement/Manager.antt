-- ===== src/Enforcement/Manager.antt =====
-- `EnforcementManager` of crates/enforcement/src/lib.rs.
use omnisec.Prelude.{
  ℕ, String, Bool, true, false, Option, none, some, List, [], ◌∷◌, ◌++◌, ◌==◌, length, find, retain,
  update_first,
}
use omnisec.Prelude.External.{Uuid, DateTime, Chrono}
use omnisec.Decision.Types.{EnforcementDecision}
use omnisec.Enforcement.Network
use omnisec.Enforcement.Network.{
  EnforcementResult, EnforcementAction, NetworkEngine, enforce_network, get_block_list,
  get_allow_list, action_count,
}
use omnisec.Enforcement.Process
use omnisec.Enforcement.Process.{ProcessEngine}
use omnisec.Enforcement.FileAccess
use omnisec.Enforcement.FileAccess.{FileAccessEngine, violation_count}

pub data IncidentStatus : Type 0 where
  open_incident resolved overridden : IncidentStatus

pub record EnforcementIncident : Type 0 where
  pub id : Uuid
  pub decision_id : Uuid
  pub pid : ℕ
  pub agent_name : String
  pub action_type : String
  pub action_target : String
  pub result : EnforcementResult
  pub duration_ms : ℕ
  pub status : IncidentStatus
  pub created_at : DateTime
  pub resolved_at : Option DateTime
  pub resolution : Option String

pub record EnforcementManager : Type 0 where
  pub network : NetworkEngine
  pub process : ProcessEngine
  pub file_access : FileAccessEngine
  pub incidents : List EnforcementIncident

unfoldable pub new : Option String → EnforcementManager
unfolding Network.new Process.new FileAccess.new
new user = record {
  network = Network.new;
  process = Process.new;
  file_access = FileAccess.new user;
  incidents = [];
}

unfoldable pub with_lists :
    Option String
    → List String
    → List String
    → List String
    → List String
    → List String
    → EnforcementManager
unfolding Network.with_lists Process.with_lists FileAccess.with_lists
with_lists user allow_destinations block_destinations known blocked sensitive = record {
  network = Network.with_lists allow_destinations block_destinations;
  process = Process.with_lists known blocked;
  file_access = FileAccess.with_lists user sensitive;
  incidents = [];
}

module _ (c : Chrono) where
  unfoldable pub execute :
      EnforcementManager
      → EnforcementDecision
      → Uuid
      → Uuid
      → DateTime
      → EnforcementManager × EnforcementAction
  execute m d action_id incident_id now =
      let (network, action) = enforce_network c m.network d action_id now in
      let incident : EnforcementIncident = record {
        id = incident_id;
        decision_id = d.id;
        pid = d.pid;
        agent_name = d.agent_name;
        action_type = action.action_type;
        action_target = action.target;
        result = action.result;
        duration_ms = 0;
        status = open_incident;
        created_at = now;
        resolved_at = none;
        resolution = none;
      } in
      (record m { network = network; incidents = m.incidents ++ incident ∷ [] }, action)

abbrev pub has_id : Uuid → EnforcementIncident → Bool
has_id id i = i.id == id

abbrev pub resolve : String → DateTime → EnforcementIncident → EnforcementIncident
resolve resolution now i = record i {
  status = resolved;
  resolved_at = some now;
  resolution = some resolution;
}

unfoldable pub resolve_incident :
    EnforcementManager → Uuid → String → DateTime → EnforcementManager × Bool
resolve_incident m incident_id resolution now = elim (find (has_id incident_id) m.incidents) [
  | none ↦ (m, false)
  | some i ↦ (
    record m { incidents = update_first (has_id incident_id) (resolve resolution now) m.incidents },
    true,
  )
]

abbrev pub is_open : IncidentStatus → Bool
is_open open_incident = true
is_open resolved = false
is_open overridden = false

unfoldable pub get_open_incidents : EnforcementManager → List EnforcementIncident
get_open_incidents m = retain (λ i. is_open i.status) m.incidents

unfoldable pub incident_count : EnforcementManager → ℕ
incident_count m = length m.incidents

pub record EnforcementStats : Type 0 where
  pub blocked_destinations : ℕ
  pub allowed_destinations : ℕ
  pub flagged_processes : ℕ
  pub file_violations : ℕ
  pub total_incidents : ℕ
  pub open_incidents : ℕ
  pub total_actions : ℕ

unfoldable pub get_stats : EnforcementManager → EnforcementStats
get_stats m = record {
  blocked_destinations = length (get_block_list m.network);
  allowed_destinations = length (get_allow_list m.network);
  flagged_processes = length m.process.flagged_processes;
  file_violations = violation_count m.file_access;
  total_incidents = incident_count m;
  open_incidents = length (get_open_incidents m);
  total_actions = action_count m.network;
}
