-- ===== src/Reliability/Cpu.antt =====
-- `CpuRunawayDetector` of crates/reliability/src/cpu.rs.
use mathlib.Core.List.{reverse}
use omnisec.Prelude.{
  ℕ, ◌-◌, String, Bool, false, ◌&&◌, Option, none, List, [], ◌∷◌, all, length, take, drop, ltb, leb,
  ◌==◌, if◌then◌else◌,
}
use omnisec.Prelude.External.{DateTime, F64, FloatOps}
use omnisec.Reliability.Readings.{push_bounded, flag_after, last_of, secs_u64}

pub record CpuSample : Type 0 where
  pub timestamp : DateTime
  pub cpu_percent : F64
  pub user_time_ms : ℕ
  pub system_time_ms : ℕ

pub record CpuRunawayDetector : Type 0 where
  pub pid : ℕ
  pub agent_name : String
  pub samples : List CpuSample
  pub max_samples : ℕ
  pub window_size : ℕ
  pub threshold_percent : F64
  pub sustained_duration_secs : ℕ
  pub is_runaway : Bool
  pub runaway_detected_at : Option DateTime

unfoldable new_cpu_detector : ℕ → String → F64 → ℕ → CpuRunawayDetector
new_cpu_detector pid agent_name threshold_percent sustained_duration_secs = record {
  pid = pid;
  agent_name = agent_name;
  samples = [];
  max_samples = 100;
  window_size = 10;
  threshold_percent = threshold_percent;
  sustained_duration_secs = sustained_duration_secs;
  is_runaway = false;
  runaway_detected_at = none;
}

unfoldable record_cpu_sample : CpuRunawayDetector → CpuSample → CpuRunawayDetector
record_cpu_sample d sample = record d { samples = push_bounded d.max_samples d.samples sample }

module _ (f : FloatOps) where
  abbrev cpu_total : F64 → List CpuSample → F64
  cpu_total total [] = total
  cpu_total total (s ∷ ss) = cpu_total (f.add total s.cpu_percent) ss

  abbrev cpu_average : List CpuSample → F64
  cpu_average ss = f.div (cpu_total (f.literal 0 1) ss) (f.of_nat (length ss))

  abbrev set_runaway : CpuRunawayDetector → Bool → DateTime → CpuRunawayDetector
  set_runaway d runaway now =
      let flag = flag_after runaway now d.is_runaway d.runaway_detected_at in
      record d { is_runaway = flag.0; runaway_detected_at = flag.1 }

  -- The window is not empty, as its size is 10.
  unfoldable detect_runaway : DateTime → CpuRunawayDetector → CpuRunawayDetector × Bool
  unfolding all
  detect_runaway now d =
      if ltb (length d.samples) d.window_size
      then (d, false)
      else elim (take d.window_size (reverse d.samples)) [
        | [] ↦ (d, false)
        | last ∷ older ↦
            let first = last_of last older in
            let sustained =
              leb d.sustained_duration_secs (secs_u64 last.timestamp first.timestamp) in
            let runaway =
              all (λ s. f.lt d.threshold_percent s.cpu_percent) (last ∷ older)
              && sustained
              && f.lt d.threshold_percent (cpu_average (last ∷ older)) in
            let d' = set_runaway d runaway now in (d', d'.is_runaway)
      ]

  unfoldable get_rolling_average : CpuRunawayDetector → F64
  get_rolling_average d =
      let recent = drop (length d.samples - d.window_size) d.samples in
      if length d.samples == 0
      then f.literal 0 1
      else if length recent == 0
      then f.literal 0 1
      else cpu_average recent
