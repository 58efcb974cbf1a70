-- ===== src/Reliability/Incident.antt =====
-- `IncidentEngine` of crates/reliability/src/incident.rs. The JSON of `metadata` is text. `clock n` is
-- what the reading n of the clock in an operation answers, from 0 on, in the order of the source.
use text.Mathlib.Text.{◌==◌ as str_eq}
use omnisec.Prelude.{
  ℕ, String, Bool, true, false, not, ◌&&◌, ◌==◌, Option, none, some, List, [], ◌∷◌, ◌++◌,
  if◌then◌else◌, is_empty, length, any, find, retain, update_first,
}
use omnisec.Prelude.Integers.{ℤ, pos, add_int, divided_difference}
use omnisec.Prelude.External.{Uuid, DateTime, F64, FloatOps}

pub data IncidentSeverity : Type 0 where
  low medium high critical : IncidentSeverity

pub data IncidentState : Type 0 where
  opened investigating recovering recovered escalated resolved : IncidentState

pub data IncidentType : Type 0 where
  agent_crash agent_hung memory_leak cpu_runaway fd_exhaustion thread_explosion dependency_failure
        policy_violation :
      IncidentType

pub record RecoveryStep : Type 0 where
  pub id : Uuid
  pub action_type : String
  pub started_at : DateTime
  pub completed_at : Option DateTime
  pub success : Bool
  pub error : Option String
  pub details : Option String

pub record Incident : Type 0 where
  pub id : Uuid
  pub agent_id : Option Uuid
  pub agent_name : String
  pub pid : ℕ
  pub incident_type : IncidentType
  pub severity : IncidentSeverity
  pub state : IncidentState
  pub title : String
  pub description : String
  pub created_at : DateTime
  pub updated_at : DateTime
  pub resolved_at : Option DateTime
  pub recovery_actions : List RecoveryStep
  pub resolution : Option String
  pub metadata : String

pub record IncidentEngine : Type 0 where
  pub incidents : List Incident

-- The arguments of `create_incident`.
pub record Report : Type 0 where
  pub agent_id : Option Uuid
  pub agent_name : String
  pub pid : ℕ
  pub incident_type : IncidentType
  pub severity : IncidentSeverity
  pub title : String
  pub description : String

unfoldable pub create_incident :
    IncidentEngine → Report → Uuid → (ℕ → DateTime) → IncidentEngine × Incident
create_incident e r id clock =
    let incident : Incident = record {
      id = id;
      agent_id = r.agent_id;
      agent_name = r.agent_name;
      pid = r.pid;
      incident_type = r.incident_type;
      severity = r.severity;
      state = opened;
      title = r.title;
      description = r.description;
      created_at = clock 0;
      updated_at = clock 1;
      resolved_at = none;
      recovery_actions = [];
      resolution = none;
      metadata = "{}";
    } in
    (record { incidents = e.incidents ++ incident ∷ [] }, incident)

abbrev pub has_id : Uuid → Incident → Bool
has_id id i = i.id == id

abbrev pub code : IncidentState → ℕ
code opened = 0
code investigating = 1
code recovering = 2
code recovered = 3
code escalated = 4
code resolved = 5

-- `==` of two states
abbrev pub same_state : IncidentState → IncidentState → Bool
same_state s t = code s == code t

-- The bodies of `if let Some(incident) = …`
abbrev pub with_state : IncidentState → (ℕ → DateTime) → Incident → Incident
with_state s clock i = record i {
  state = s;
  updated_at = clock 0;
  resolved_at = if same_state s resolved then some (clock 1) else i.resolved_at;
}

abbrev pub with_action : RecoveryStep → DateTime → Incident → Incident
with_action a now i = record i { recovery_actions = i.recovery_actions ++ a ∷ []; updated_at = now }

abbrev pub with_resolution : String → (ℕ → DateTime) → Incident → Incident
with_resolution text clock i = record i {
  state = resolved;
  resolution = some text;
  resolved_at = some (clock 0);
  updated_at = clock 1;
}

-- `if let Some(incident) = self.incidents.iter_mut().find(…) { f(incident); true } else { false }`
unfoldable pub change : IncidentEngine → Uuid → (Incident → Incident) → IncidentEngine × Bool
change e id f =
    if any (has_id id) e.incidents
    then (record { incidents = update_first (has_id id) f e.incidents }, true)
    else (e, false)

unfoldable pub update_incident :
    IncidentEngine → Uuid → IncidentState → (ℕ → DateTime) → IncidentEngine × Bool
unfolding change
update_incident e incident_id new_state clock = change e incident_id (with_state new_state clock)

abbrev pub step_of :
    String → Bool → Option String → Option String → Uuid → (ℕ → DateTime) → RecoveryStep
step_of action_type success error details id clock = record {
  id = id;
  action_type = action_type;
  started_at = clock 0;
  completed_at = some (clock 1);
  success = success;
  error = error;
  details = details;
}

unfoldable pub add_recovery_action :
    IncidentEngine
    → Uuid
    → String
    → Bool
    → Option String
    → Option String
    → Uuid
    → (ℕ → DateTime)
    → IncidentEngine × Bool
unfolding change
add_recovery_action e incident_id action_type success error details id clock =
    change e incident_id
      (with_action (step_of action_type success error details id clock) (clock 2))

unfoldable pub resolve_incident :
    IncidentEngine → Uuid → String → (ℕ → DateTime) → IncidentEngine × Bool
unfolding change
resolve_incident e incident_id resolution clock =
    change e incident_id (with_resolution resolution clock)

unfoldable pub get_incident : IncidentEngine → Uuid → Option Incident
get_incident e incident_id = find (has_id incident_id) e.incidents

unfoldable pub get_open_incidents : IncidentEngine → List Incident
get_open_incidents e =
    retain (λ i. not (same_state i.state resolved) && not (same_state i.state recovered))
      e.incidents

unfoldable pub get_incidents_for_agent : IncidentEngine → String → List Incident
get_incidents_for_agent e agent_name = retain (λ i. str_eq i.agent_name agent_name) e.incidents

pub record IncidentStats : Type 0 where
  pub total : ℕ
  pub open_count : ℕ
  pub investigating_count : ℕ
  pub recovering_count : ℕ
  pub recovered_count : ℕ
  pub escalated_count : ℕ
  pub resolved_count : ℕ
  pub avg_recovery_time_ms : F64

unfoldable pub count_state : IncidentState → List Incident → ℕ
count_state s is = length (retain (λ i. same_state i.state s) is)

-- The sum of the milliseconds from creation to resolution, over the incidents with a resolution time.
unfoldable pub total_time : List Incident → ℤ
total_time [] = pos 0
total_time (i ∷ is) = elim i.resolved_at [
  | none ↦ total_time is
  | some r ↦ add_int (divided_difference r i.created_at 1_000_000) (total_time is)
]

abbrev pub has_time : Incident → Bool
has_time i = elim i.resolved_at [ none ↦ false | some r ↦ true ]

-- `of_int` is the conversion `as f64`.
module _ (f : FloatOps) (of_int : ℤ → F64) where
  unfoldable pub get_incident_stats : IncidentEngine → IncidentStats
  unfolding count_state total_time
  get_incident_stats e =
      let timed = retain has_time e.incidents in
      record {
        total = length e.incidents;
        open_count = count_state opened e.incidents;
        investigating_count = count_state investigating e.incidents;
        recovering_count = count_state recovering e.incidents;
        recovered_count = count_state recovered e.incidents;
        escalated_count = count_state escalated e.incidents;
        resolved_count = count_state resolved e.incidents;
        avg_recovery_time_ms =
            if is_empty timed
            then f.literal 0 1
            else f.div (of_int (total_time timed)) (f.of_nat (length timed));
      }

abbrev pub severity_str : IncidentSeverity → String
severity_str low = "LOW"
severity_str medium = "MEDIUM"
severity_str high = "HIGH"
severity_str critical = "CRITICAL"

abbrev pub state_str : IncidentState → String
state_str opened = "OPEN"
state_str investigating = "INVESTIGATING"
state_str recovering = "RECOVERING"
state_str recovered = "RECOVERED"
state_str escalated = "ESCALATED"
state_str resolved = "RESOLVED"
