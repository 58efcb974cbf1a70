-- ===== src/Decision/Defaults.antt =====
-- `default_policies` of crates/decision/src/lib.rs.
use omnisec.Prelude.{true, none, some, List, [], ◌∷◌}
use omnisec.Prelude.External.{Uuid, DateTime, FloatOps}
use omnisec.Decision.Types.{
  allow, flag, block, restart, escalate, PolicyConditions, PolicyRule, VersionedPolicy,
}

abbrev pub no_conditions : PolicyConditions
no_conditions = record {
  risk_score_min = none;
  risk_score_max = none;
  anomaly_type = none;
  destination_match = none;
  destination_pattern = none;
  process_name_match = none;
  file_path_pattern = none;
  outbound_ratio_min = none;
  is_known_destination = none;
  is_new_destination = none;
  correlation_type = none;
  incident_count_min = none;
}

abbrev pub allow_known_destinations : PolicyRule
allow_known_destinations = record {
  name = "allow_known_destinations";
  action = allow;
  priority = 10;
  conditions = record no_conditions { risk_score_max = some 20; is_known_destination = some true };
}

abbrev pub block_critical_risk : PolicyRule
block_critical_risk = record {
  name = "block_critical_risk";
  action = block;
  priority = 90;
  conditions = record no_conditions { risk_score_min = some 81 };
}

abbrev pub flag_new_destination : PolicyRule
flag_new_destination = record {
  name = "flag_new_destination";
  action = flag;
  priority = 50;
  conditions = record no_conditions {
    risk_score_min = some 21;
    risk_score_max = some 80;
    is_new_destination = some true;
  };
}

module _ (f : FloatOps) where
  abbrev pub block_exfiltration : PolicyRule
  block_exfiltration = record {
    name = "block_exfiltration";
    action = block;
    priority = 95;
    conditions = record no_conditions {
      risk_score_min = some 51;
      anomaly_type = some "OutboundSpike";
      outbound_ratio_min = some (f.literal 20 0);
    };
  }

abbrev pub escalate_multi_risk : PolicyRule
escalate_multi_risk = record {
  name = "escalate_multi_risk";
  action = escalate;
  priority = 80;
  conditions = record no_conditions {
    risk_score_min = some 51;
    correlation_type = some "MultiAgentRiskEscalation";
  };
}

abbrev pub restart_on_fingerprint_drift : PolicyRule
restart_on_fingerprint_drift = record {
  name = "restart_on_fingerprint_drift";
  action = restart;
  priority = 70;
  conditions = record no_conditions {
    risk_score_min = some 41;
    anomaly_type = some "FingerprintDrift";
  };
}

unfoldable pub default_policies : FloatOps → Uuid → DateTime → List VersionedPolicy
default_policies f id now =
    record {
      id = id;
      name = "destination_security";
      description = "Security policies for destination-based enforcement";
      version = 1;
      enabled = true;
      rules =
          allow_known_destinations
          ∷ block_critical_risk
          ∷ flag_new_destination
          ∷ block_exfiltration f
          ∷ escalate_multi_risk
          ∷ restart_on_fingerprint_drift
          ∷ [];
      created_at = now;
      updated_at = now;
    }
    ∷ []
