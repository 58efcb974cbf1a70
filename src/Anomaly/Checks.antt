-- ===== src/Anomaly/Checks.antt =====
-- The checks of crates/anomaly/src/lib.rs. `now` is what `Utc::now` answers.
use omnisec.Prelude.{
  ℕ, ◌/◌, String, Bool, false, not, Option, none, some, List, [], ◌∷◌, any, ◌==◌, ltb, length,
  if◌then◌else◌,
}
use text.Mathlib.Text.{◌==◌ as str_eq}
use omnisec.Prelude.Texts.{concat}
use omnisec.Prelude.Decimal.{decimal}
use omnisec.Prelude.External.{DateTime, F64, FloatOps, F64Text, nanos_per_sec}
use omnisec.Anomaly.Types.{
  AnomalyType, new_destination, traffic_spike, outbound_spike, activity_time_anomaly,
  connection_count_spike, fingerprint_drift, BaselineState, is_established, is_learning,
  AnomalySeverity, low, medium, high, critical, AnomalyRecord, AnomalyDetector,
}
use omnisec.Anomaly.Records.{push_anomaly}

-- `format!("{}-{}-{}", kind, pid, Utc::now().timestamp())`
abbrev pub anomaly_id : String → ℕ → DateTime → String
anomaly_id kind pid now =
    concat (kind ∷ "-" ∷ decimal pid ∷ "-" ∷ decimal (now / nanos_per_sec) ∷ [])

-- A record as each check makes it.
abbrev pub found :
    DateTime
    → String
    → ℕ
    → String
    → AnomalyType
    → AnomalySeverity
    → String
    → F64
    → F64
    → F64
    → AnomalyRecord
found now kind pid agent_name anomaly_type severity description current baseline deviation =
    record {
      id = anomaly_id kind pid now;
      pid = pid;
      agent_name = agent_name;
      anomaly_type = anomaly_type;
      severity = severity;
      description = description;
      current_value = current;
      baseline_value = baseline;
      deviation = deviation;
      detected_at = now;
      resolved = false;
      resolved_at = none;
    }

-- The record is kept and answered.
abbrev pub answer_with :
    AnomalyDetector → ℕ → AnomalyRecord → AnomalyDetector × Option AnomalyRecord
answer_with d pid r = (push_anomaly d pid r, some r)

-- The thresholds of the three levels of severity.
abbrev pub severity_above : FloatOps → F64 → F64 → F64 → AnomalySeverity
severity_above f top middle x =
    if f.lt top x then critical else if f.lt middle x then high else medium

-- `{:02}` of a number below 100
abbrev pub two_digits : ℕ → String
two_digits n = if ltb n 10 then concat ("0" ∷ decimal n ∷ []) else decimal n

-- `{:?}` of a slice of numbers
abbrev pub rest_of_list : List ℕ → String
rest_of_list [] = "]"
rest_of_list (n ∷ ns) = concat (", " ∷ decimal n ∷ rest_of_list ns ∷ [])

abbrev pub debug_list : List ℕ → String
debug_list [] = "[]"
debug_list (n ∷ ns) = concat ("[" ∷ decimal n ∷ rest_of_list ns ∷ [])

abbrev pub sum_hours : FloatOps → F64 → List ℕ → F64
sum_hours f total [] = total
sum_hours f total (h ∷ hs) = sum_hours f (f.add total (f.of_nat h)) hs

module _ (f : FloatOps) (t : F64Text) (now : DateTime) where
  unfoldable pub check_new_destination :
      AnomalyDetector
      → ℕ
      → String
      → String
      → ℕ
      → List String
      → BaselineState
      → AnomalyDetector × Option AnomalyRecord
  check_new_destination d pid agent_name destination port known_destinations baseline_state =
      if not (is_established baseline_state)
      then (d, none)
      else if any (λ k. str_eq k destination) known_destinations
      then (d, none)
      else answer_with d pid (
          found now "new-dest" pid agent_name new_destination medium
            (concat
              ("Agent connected to unknown destination: " ∷ destination ∷ ":" ∷ decimal port ∷ []))
            (f.literal 10 1) (f.literal 0 1) (f.literal 10 1))

  -- The guard of the traffic rate: without a baseline only very high traffic counts.
  unfoldable pub is_traffic_normal : AnomalyDetector → F64 → F64 → Bool
  is_traffic_normal d current_rate baseline_rate =
      if f.le baseline_rate (f.literal 0 1)
      then f.lt current_rate (f.literal 100_000 1)
      else f.lt current_rate (f.mul baseline_rate d.config.traffic_spike_multiplier)

  unfoldable pub traffic_deviation : F64 → F64 → F64
  traffic_deviation current_rate baseline_rate =
      if f.lt (f.literal 0 1) baseline_rate
      then f.div current_rate baseline_rate
      else f.div current_rate (f.literal 10_000 1)

  unfoldable pub check_traffic_spike :
      AnomalyDetector
      → ℕ
      → String
      → F64
      → F64
      → BaselineState
      → AnomalyDetector × Option AnomalyRecord
  unfolding is_traffic_normal traffic_deviation
  check_traffic_spike d pid agent_name current_rate baseline_rate baseline_state =
      if is_learning baseline_state
      then (d, none)
      else if is_traffic_normal d current_rate baseline_rate
      then (d, none)
      else (let deviation = traffic_deviation current_rate baseline_rate in
          answer_with d pid (
            found now "traffic" pid agent_name traffic_spike
              (severity_above f (f.literal 100 1) (f.literal 50 1) deviation)
              (concat (
                "Traffic spike detected: "
                ∷ t.fixed 1 current_rate
                ∷ " bytes/min (baseline: "
                ∷ t.fixed 1 baseline_rate
                ∷ ")"
                ∷ []))
              current_rate baseline_rate deviation))

  unfoldable pub check_outbound_spike :
      AnomalyDetector → ℕ → String → ℕ → ℕ → BaselineState → AnomalyDetector × Option AnomalyRecord
  check_outbound_spike d pid agent_name outbound_bytes inbound_bytes baseline_state =
      if not (is_established baseline_state)
      then (d, none)
      else if ltb 0 inbound_bytes
      then (let ratio = f.div (f.of_nat outbound_bytes) (f.of_nat inbound_bytes) in
          if f.lt ratio d.config.outbound_ratio_threshold
          then (d, none)
          else answer_with d pid (
              found now "outbound" pid agent_name outbound_spike
                (severity_above f (f.literal 200 1) (f.literal 100 1) ratio)
                (concat
                  ("Outbound traffic spike: " ∷ t.fixed 1 ratio ∷ "x outbound/inbound ratio" ∷ []))
                ratio (f.literal 10 1) ratio))
      else if ltb 0 outbound_bytes
      then answer_with d pid (
          found now "outbound" pid agent_name outbound_spike high
            (concat
              ("Outbound traffic with no inbound: " ∷ decimal outbound_bytes ∷ " bytes out" ∷ []))
            (f.of_nat outbound_bytes) (f.literal 0 1) (f.literal 100 1))
      else (d, none)

  unfoldable pub check_time_anomaly :
      AnomalyDetector
      → ℕ
      → String
      → ℕ
      → List ℕ
      → BaselineState
      → AnomalyDetector × Option AnomalyRecord
  check_time_anomaly d pid agent_name hour active_hours baseline_state =
      if not (is_established baseline_state)
      then (d, none)
      else if length active_hours == 0
      then (d, none)
      else if any (λ h. h == hour) active_hours
      then (d, none)
      else answer_with d pid (
          found now "time" pid agent_name activity_time_anomaly low
            (concat (
              "Activity at unusual hour: "
              ∷ two_digits hour
              ∷ ":00 (active hours: "
              ∷ debug_list active_hours
              ∷ ")"
              ∷ []))
            (f.of_nat hour)
            (f.div (sum_hours f (f.literal 0 1) active_hours) (f.of_nat (length active_hours)))
            (f.literal 10 1))

  unfoldable pub check_fingerprint_drift :
      AnomalyDetector
      → ℕ
      → String
      → F64
      → List String
      → BaselineState
      → AnomalyDetector × Option AnomalyRecord
  check_fingerprint_drift d pid agent_name drift_score new_destinations baseline_state =
      if not (is_established baseline_state)
      then (d, none)
      else if f.lt drift_score d.config.drift_threshold
      then (d, none)
      else answer_with d pid (
          found now "drift" pid agent_name fingerprint_drift
            (severity_above f (f.literal 700 1) (f.literal 500 1) drift_score)
            (concat (
              "Behavioral fingerprint drift: "
              ∷ t.fixed 1 drift_score
              ∷ "% with "
              ∷ decimal (length new_destinations)
              ∷ " new destinations"
              ∷ []))
            drift_score (f.literal 0 1) (f.div drift_score (f.literal 1_000 1)))

  unfoldable pub check_connection_spike :
      AnomalyDetector
      → ℕ
      → String
      → F64
      → F64
      → BaselineState
      → AnomalyDetector × Option AnomalyRecord
  check_connection_spike d pid agent_name current_connections avg_connections baseline_state =
      if is_learning baseline_state
      then (d, none)
      else if f.le avg_connections (f.literal 0 1)
      then (d, none)
      else if f.lt current_connections (f.mul avg_connections d.config.connection_spike_multiplier)
      then (d, none)
      else (let deviation = f.div current_connections avg_connections in
          answer_with d pid (
            found now "conn" pid agent_name connection_count_spike
              (if f.lt (f.literal 50 1) deviation then high else medium)
              (concat (
                "Connection count spike: "
                ∷ decimal (t.to_nat 32 current_connections)
                ∷ " (baseline: "
                ∷ decimal (t.to_nat 32 avg_connections)
                ∷ ")"
                ∷ []))
              current_connections avg_connections deviation))
