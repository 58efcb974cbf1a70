-- ===== src/Security/Snapshots.antt =====
-- The records of crates/security/src/correlation.rs. A JSON object is a list of its entries.
use omnisec.Prelude.{ℕ, String, Bool, List, []}
use omnisec.Prelude.External.{DateTime, F64}

pub data CorrelationType : Type 0 where
  individual_traffic_spike global_traffic_spike individual_outbound_spike global_outbound_spike :
      CorrelationType
  individual_new_destinations shared_new_destination individual_time_anomaly : CorrelationType
  global_time_pattern_shift risk_escalation multi_agent_risk_escalation : CorrelationType

pub data CorrelationSeverity : Type 0 where
  info low medium high critical : CorrelationSeverity

-- `serde_json::Value`, as far as the engine builds one.
pub data Json : Type 0 where
  string : String → Json
  whole : ℕ → Json
  float : F64 → Json
  wholes : List ℕ → Json
  floats : List F64 → Json

pub record CorrelationAlert : Type 0 where
  pub id : String
  pub correlation_type : CorrelationType
  pub description : String
  pub affected_agents : List String
  pub affected_pids : List ℕ
  pub severity : CorrelationSeverity
  pub pattern : List (String × Json)
  pub detected_at : DateTime
  pub resolved : Bool

pub record AgentActivitySnapshot : Type 0 where
  pub pid : ℕ
  pub agent_name : String
  pub traffic_rate_in : F64
  pub traffic_rate_out : F64
  pub connection_count : ℕ
  pub risk_score : ℕ
  pub new_destinations : List String
  pub active_hour : ℕ
  pub is_active : Bool

pub record CorrelationEngine : Type 0 where
  pub history : List (DateTime × List AgentActivitySnapshot)
  pub alerts : List CorrelationAlert
  pub max_history : ℕ

unfoldable pub new_correlation_engine : CorrelationEngine
new_correlation_engine = record { history = []; alerts = []; max_history = 100 }

pub record RiskDistribution : Type 0 where
  pub normal : ℕ
  pub suspicious : ℕ
  pub high_risk : ℕ
  pub critical_risk : ℕ

-- `fmt::Display`
unfoldable pub display : CorrelationType → String
display individual_traffic_spike = "IndividualTrafficSpike"
display global_traffic_spike = "GlobalTrafficSpike"
display individual_outbound_spike = "IndividualOutboundSpike"
display global_outbound_spike = "GlobalOutboundSpike"
display individual_new_destinations = "IndividualNewDestinations"
display shared_new_destination = "SharedNewDestination"
display individual_time_anomaly = "IndividualTimeAnomaly"
display global_time_pattern_shift = "GlobalTimePatternShift"
display risk_escalation = "RiskEscalation"
display multi_agent_risk_escalation = "MultiAgentRiskEscalation"
