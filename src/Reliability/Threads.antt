-- ===== src/Reliability/Threads.antt =====
-- `ThreadExplosionDetector` of crates/reliability/src/thread.rs.
use mathlib.Core.List.{reverse}
use omnisec.Prelude.{
  ℕ, ◌-◌, ◌/◌, String, Bool, false, ◌&&◌, ◌||◌, Option, none, List, [], ◌∷◌, map, length, take, ltb,
  if◌then◌else◌,
}
use omnisec.Prelude.External.{DateTime, F64, FloatOps, nanos_per_sec}
use omnisec.Reliability.Readings.{
  push_bounded, flag_after, last_of, secs_f64, u32_average, greatest,
}

pub record ThreadSample : Type 0 where
  pub timestamp : DateTime
  pub thread_count : ℕ

pub record ThreadExplosionDetector : Type 0 where
  pub pid : ℕ
  pub agent_name : String
  pub samples : List ThreadSample
  pub max_samples : ℕ
  pub window_size : ℕ
  pub growth_threshold_percent : F64
  pub max_threads : ℕ
  pub is_exploded : Bool
  pub explosion_detected_at : Option DateTime

unfoldable new_thread_detector : ℕ → String → F64 → ℕ → ThreadExplosionDetector
new_thread_detector pid agent_name growth_threshold_percent max_threads = record {
  pid = pid;
  agent_name = agent_name;
  samples = [];
  max_samples = 100;
  window_size = 10;
  growth_threshold_percent = growth_threshold_percent;
  max_threads = max_threads;
  is_exploded = false;
  explosion_detected_at = none;
}

unfoldable record_thread_sample : ThreadExplosionDetector → ThreadSample → ThreadExplosionDetector
record_thread_sample d sample = record d { samples = push_bounded d.max_samples d.samples sample }

pub record ThreadStats : Type 0 where
  pub avg_count : ℕ
  pub max_count : ℕ
  pub current_count : ℕ
  pub growth_rate : F64
  pub sample_count : ℕ
  pub is_exploded : Bool
  pub explosion_detected_at : Option DateTime

module _ (f : FloatOps) where
  -- The newest sample of the window against the oldest.
  unfoldable is_exploding : ThreadExplosionDetector → ThreadSample → ThreadSample → Bool
  is_exploding d last first =
      let growth = f.sub (f.of_nat last.thread_count) (f.of_nat first.thread_count) in
      let growth_pct =
        if ltb 0 first.thread_count
        then f.mul (f.div growth (f.of_nat first.thread_count)) (f.literal 1000 1)
        else f.literal 0 1 in
      let rapid_growth =
        f.lt d.growth_threshold_percent growth_pct
        && ltb ((last.timestamp - first.timestamp) / nanos_per_sec) 60 in
      rapid_growth || ltb d.max_threads last.thread_count

  abbrev set_exploded : ThreadExplosionDetector → Bool → DateTime → ThreadExplosionDetector
  set_exploded d exploded now =
      let flag = flag_after exploded now d.is_exploded d.explosion_detected_at in
      record d { is_exploded = flag.0; explosion_detected_at = flag.1 }

  -- The window is not empty, as its size is 10.
  unfoldable detect_explosion : DateTime → ThreadExplosionDetector → ThreadExplosionDetector × Bool
  unfolding is_exploding
  detect_explosion now d =
      if ltb (length d.samples) d.window_size
      then (d, false)
      else elim (take d.window_size (reverse d.samples)) [
        | [] ↦ (d, false)
        | last ∷ older ↦
            let d' = set_exploded d (is_exploding d last (last_of last older)) now in
            (d', d'.is_exploded)
      ]

  abbrev thread_rate : ThreadSample → List ThreadSample → F64
  thread_rate latest older =
      let first = last_of latest older in
      if ltb 0 ((latest.timestamp - first.timestamp) / nanos_per_sec)
      then f.div (f.sub (f.of_nat latest.thread_count) (f.of_nat first.thread_count))
          (secs_f64 f latest.timestamp first.timestamp)
      else f.literal 0 1

  -- With one sample the duration is 0, so the growth rate is 0 too.
  unfoldable get_thread_stats : ThreadExplosionDetector → ThreadStats
  get_thread_stats d = elim (reverse d.samples) [
    | [] ↦ record {
      avg_count = 0;
      max_count = 0;
      current_count = 0;
      growth_rate = f.literal 0 1;
      sample_count = 0;
      is_exploded = false;
      explosion_detected_at = none;
    }
    | latest ∷ older ↦ record {
      avg_count = u32_average (map (λ s. s.thread_count) d.samples);
      max_count = greatest 0 (map (λ s. s.thread_count) d.samples);
      current_count = latest.thread_count;
      growth_rate = thread_rate latest older;
      sample_count = length d.samples;
      is_exploded = d.is_exploded;
      explosion_detected_at = d.explosion_detected_at;
    }
  ]
