-- ===== src/Fingerprint/Types.antt =====
-- The parts of a fingerprint in crates/fingerprint/src/lib.rs.
use omnisec.Prelude.{ℕ, String, List}
use omnisec.Prelude.Texts.{StringSet}
use omnisec.Prelude.External.{DateTime, F64, Uuid}

pub record DestinationFingerprint : Type 0 where
  pub domains : List String
  pub ip_ranges : List String
  pub ports : List ℕ
  pub protocols : StringSet

pub record TrafficFingerprint : Type 0 where
  pub avg_bytes_in_per_min : F64
  pub avg_bytes_out_per_min : F64
  pub std_dev_bytes_in : F64
  pub std_dev_bytes_out : F64
  pub avg_connection_count : F64

pub record TimingFingerprint : Type 0 where
  pub active_hours : List ℕ
  pub avg_requests_per_min : F64
  pub peak_hour : ℕ

pub record ProcessFingerprint : Type 0 where
  pub typical_cpu_percent : F64
  pub typical_memory_mb : F64
  pub typical_fd_count : ℕ
  pub typical_thread_count : ℕ

pub record AgentFingerprint : Type 0 where
  pub id : Uuid
  pub pid : ℕ
  pub agent_name : String
  pub version : ℕ
  pub created_at : DateTime
  pub updated_at : DateTime
  pub destinations : DestinationFingerprint
  pub traffic : TrafficFingerprint
  pub timing : TimingFingerprint
  pub process : ProcessFingerprint
  pub confidence_score : F64
  pub sample_count : ℕ

pub record FingerprintDrift : Type 0 where
  pub drift_score : F64
  pub new_destinations : List String
  pub traffic_change_percent : F64
  pub time_change_percent : F64
  pub dest_score : F64
  pub port_score : F64
  pub traffic_score : F64
  pub time_score : F64
