-- ===== src/Decision/Types.antt =====
-- The data of crates/decision/src/lib.rs.
use omnisec.Prelude.{ℕ, String, Bool, Option, List}
use omnisec.Prelude.External.{Uuid, DateTime, F64}

pub data DecisionAction : Type 0 where
  allow flag block restart escalate : DecisionAction

pub data OverrideAction : Type 0 where
  approve reject override temporary_allow temporary_block : OverrideAction

pub record EnforcementContext : Type 0 where
  pub risk_score : ℕ
  pub risk_level : String
  pub anomaly_type : Option String
  pub anomaly_severity : Option String
  pub deviation : Option F64
  pub correlation_type : Option String
  pub destination : Option String
  pub process_name : Option String
  pub file_path : Option String

pub record EnforcementDecision : Type 0 where
  pub id : Uuid
  pub pid : ℕ
  pub agent_name : String
  pub action : DecisionAction
  pub reason : String
  pub rule : String
  pub confidence : F64
  pub timestamp : DateTime
  pub policy_name : String
  pub policy_version : ℕ
  pub context : EnforcementContext

pub record PolicyConditions : Type 0 where
  pub risk_score_min : Option ℕ
  pub risk_score_max : Option ℕ
  pub anomaly_type : Option String
  pub destination_match : Option String
  pub destination_pattern : Option String
  pub process_name_match : Option String
  pub file_path_pattern : Option String
  pub outbound_ratio_min : Option F64
  pub is_known_destination : Option Bool
  pub is_new_destination : Option Bool
  pub correlation_type : Option String
  pub incident_count_min : Option ℕ

pub record PolicyRule : Type 0 where
  pub name : String
  pub action : DecisionAction
  pub priority : ℕ
  pub conditions : PolicyConditions

pub record VersionedPolicy : Type 0 where
  pub id : Uuid
  pub name : String
  pub description : String
  pub version : ℕ  -- u32
  pub enabled : Bool
  pub rules : List PolicyRule
  pub created_at : DateTime
  pub updated_at : DateTime

pub record HumanOverride : Type 0 where
  pub id : Uuid
  pub decision_id : Uuid
  pub action : OverrideAction
  pub reason : String
  pub expires_at : Option DateTime
  pub created_by : String
  pub created_at : DateTime

pub record DecisionEngine : Type 0 where
  pub policies : List VersionedPolicy
  pub decisions : List EnforcementDecision
  pub overrides : List HumanOverride

-- The arguments of `evaluate`. Its context is made of them.
pub record Request : Type 0 where
  pub pid : ℕ
  pub agent_name : String
  pub risk_score : ℕ
  pub risk_level : String
  pub anomaly_type : Option String
  pub anomaly_severity : Option String
  pub deviation : Option F64
  pub correlation_type : Option String
  pub destination : Option String
  pub process_name : Option String
  pub file_path : Option String
  pub known_destinations : List String
