-- ===== src/Reliability/Descriptors.antt =====
-- `FdExhaustionDetector` of crates/reliability/src/fd.rs.
use mathlib.Core.List.{reverse}
use omnisec.Prelude.{
  ℕ, String, Bool, false, Option, none, List, [], ◌∷◌, map, length, take, ltb, ◌==◌, ◌-◌, ◌/◌,
  if◌then◌else◌,
}
use omnisec.Prelude.External.{DateTime, F64, FloatOps, nanos_per_sec}
use omnisec.Reliability.Readings.{
  push_bounded, flag_after, last_of, secs_f64, u32_average, greatest,
}

pub record FdSample : Type 0 where
  pub timestamp : DateTime
  pub fd_count : ℕ
  pub fd_limit : ℕ

pub record FdExhaustionDetector : Type 0 where
  pub pid : ℕ
  pub agent_name : String
  pub samples : List FdSample
  pub max_samples : ℕ
  pub threshold_percent : F64
  pub is_exhausted : Bool
  pub exhaustion_detected_at : Option DateTime

unfoldable pub new_fd_detector : ℕ → String → F64 → FdExhaustionDetector
new_fd_detector pid agent_name threshold_percent = record {
  pid = pid;
  agent_name = agent_name;
  samples = [];
  max_samples = 100;
  threshold_percent = threshold_percent;
  is_exhausted = false;
  exhaustion_detected_at = none;
}

unfoldable pub record_fd_sample : FdExhaustionDetector → FdSample → FdExhaustionDetector
record_fd_sample d sample = record d { samples = push_bounded d.max_samples d.samples sample }

pub record FdStats : Type 0 where
  pub avg_count : ℕ
  pub max_count : ℕ
  pub current_count : ℕ
  pub fd_limit : ℕ
  pub usage_percent : F64
  pub sample_count : ℕ
  pub is_exhausted : Bool
  pub exhaustion_detected_at : Option DateTime

module _ (f : FloatOps) where
  unfoldable pub usage_of : FdSample → F64
  usage_of s =
      if ltb 0 s.fd_limit
      then f.mul (f.div (f.of_nat s.fd_count) (f.of_nat s.fd_limit)) (f.literal 1000 1)
      else f.literal 0 1

  abbrev set_exhausted : FdExhaustionDetector → Bool → DateTime → FdExhaustionDetector
  set_exhausted d exhausted now =
      let flag = flag_after exhausted now d.is_exhausted d.exhaustion_detected_at in
      record d { is_exhausted = flag.0; exhaustion_detected_at = flag.1 }

  unfoldable pub detect_exhaustion : DateTime → FdExhaustionDetector → FdExhaustionDetector × Bool
  unfolding usage_of
  detect_exhaustion now d = elim (reverse d.samples) [
    | [] ↦ (d, false)
    | latest ∷ older ↦
        let d' = set_exhausted d (f.le d.threshold_percent (usage_of latest)) now in
        (d', d'.is_exhausted)
  ]

  unfoldable get_fd_stats : FdExhaustionDetector → FdStats
  unfolding usage_of
  get_fd_stats d = elim (reverse d.samples) [
    | [] ↦ record {
      avg_count = 0;
      max_count = 0;
      current_count = 0;
      fd_limit = 0;
      usage_percent = f.literal 0 1;
      sample_count = 0;
      is_exhausted = false;
      exhaustion_detected_at = none;
    }
    | latest ∷ older ↦ record {
      avg_count = u32_average (map (λ s. s.fd_count) d.samples);
      max_count = greatest 0 (map (λ s. s.fd_count) d.samples);
      current_count = latest.fd_count;
      fd_limit = latest.fd_limit;
      usage_percent = usage_of latest;
      sample_count = length d.samples;
      is_exhausted = d.is_exhausted;
      exhaustion_detected_at = d.exhaustion_detected_at;
    }
  ]

  abbrev rate_between : FdSample → FdSample → F64
  rate_between last first =
      if (last.timestamp - first.timestamp) / nanos_per_sec == 0
      then (if (first.timestamp - last.timestamp) / nanos_per_sec == 0
          then f.literal 0 1
          else f.div (f.sub (f.of_nat last.fd_count) (f.of_nat first.fd_count))
              (secs_f64 f last.timestamp first.timestamp))
      else f.div (f.sub (f.of_nat last.fd_count) (f.of_nat first.fd_count))
          (secs_f64 f last.timestamp first.timestamp)

  -- The newest sample against the oldest of the last five.
  unfoldable fd_rate_of : List FdSample → F64
  fd_rate_of [] = f.literal 0 1
  fd_rate_of (last ∷ []) = f.literal 0 1
  fd_rate_of (last ∷ s ∷ ss) = rate_between last (last_of s ss)

  unfoldable fd_growth_rate : FdExhaustionDetector → F64
  unfolding fd_rate_of
  fd_growth_rate d = fd_rate_of (take 5 (reverse d.samples))
