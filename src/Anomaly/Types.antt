-- ===== src/Anomaly/Types.antt =====
-- The records of crates/anomaly/src/lib.rs, with the two enums it takes from crates/events/src/lib.rs.
use omnisec.Prelude.{ℕ, String, Bool, true, false, Option, List, []}
use omnisec.Prelude.Maps.{NatMap}
use omnisec.Prelude.External.{DateTime, F64, FloatOps}

pub data AnomalyType : Type 0 where
  new_destination new_port new_protocol traffic_spike outbound_spike activity_time_anomaly :
      AnomalyType
  connection_count_spike fingerprint_drift : AnomalyType

pub data BaselineState : Type 0 where
  learning training established : BaselineState

abbrev pub is_established : BaselineState → Bool
is_established learning = false
is_established training = false
is_established established = true

abbrev pub is_learning : BaselineState → Bool
is_learning learning = true
is_learning training = false
is_learning established = false

pub data AnomalySeverity : Type 0 where
  low medium high critical : AnomalySeverity

pub record AnomalyRecord : Type 0 where
  pub id : String
  pub pid : ℕ
  pub agent_name : String
  pub anomaly_type : AnomalyType
  pub severity : AnomalySeverity
  pub description : String
  pub current_value : F64
  pub baseline_value : F64
  pub deviation : F64
  pub detected_at : DateTime
  pub resolved : Bool
  pub resolved_at : Option DateTime

pub record AnomalyConfig : Type 0 where
  pub traffic_spike_multiplier : F64
  pub outbound_ratio_threshold : F64
  pub drift_threshold : F64
  pub connection_spike_multiplier : F64

unfoldable pub default_anomaly_config : FloatOps → AnomalyConfig
default_anomaly_config f = record {
  traffic_spike_multiplier = f.literal 30 1;
  outbound_ratio_threshold = f.literal 50 1;
  drift_threshold = f.literal 300 1;
  connection_spike_multiplier = f.literal 30 1;
}

pub record BaselineMetric : Type 0 where
  pub mean : F64
  pub std_dev : F64
  pub sample_count : ℕ

-- No method reads or writes `baselines`.
pub record AnomalyDetector : Type 0 where
  pub config : AnomalyConfig
  pub anomalies : NatMap (List AnomalyRecord)
  pub baselines : NatMap (List (String × BaselineMetric))

unfoldable pub with_anomaly_config : AnomalyConfig → AnomalyDetector
with_anomaly_config config = record { config = config; anomalies = []; baselines = [] }

unfoldable pub new_anomaly_detector : FloatOps → AnomalyDetector
unfolding with_anomaly_config default_anomaly_config
new_anomaly_detector f = with_anomaly_config (default_anomaly_config f)
