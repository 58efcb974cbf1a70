-- ===== src/Reliability/Memory.antt =====
-- `MemoryLeakDetector` of crates/reliability/src/memory.rs. The sum of the growth rates, which only
-- a log line shows, is left out.
use mathlib.Core.List.{reverse}
use omnisec.Prelude.{
  ℕ, ◌+◌, ◌-◌, String, Bool, true, false, not, ◌&&◌, Option, none, some, List, [], ◌∷◌, ◌++◌, ◌==◌,
  ltb, leb, if◌then◌else◌, length, take, drop,
}
use omnisec.Prelude.External.{DateTime, F64, FloatOps}

pub record MemorySample : Type 0 where
  pub timestamp : DateTime
  pub rss_bytes : ℕ
  pub vsz_bytes : ℕ

pub record MemoryLeakDetector : Type 0 where
  pub pid : ℕ
  pub agent_name : String
  pub samples : List MemorySample
  pub max_samples : ℕ
  pub window_size : ℕ
  pub growth_threshold_pct : F64
  pub consecutive_growth_limit : ℕ
  pub is_leaking : Bool
  pub leak_detected_at : Option DateTime

unfoldable pub new_detector : ℕ → String → F64 → ℕ → MemoryLeakDetector
new_detector pid agent_name growth_threshold_pct consecutive_growth_limit = record {
  pid = pid;
  agent_name = agent_name;
  samples = [];
  max_samples = 100;
  window_size = 10;
  growth_threshold_pct = growth_threshold_pct;
  consecutive_growth_limit = consecutive_growth_limit;
  is_leaking = false;
  leak_detected_at = none;
}

unfoldable pub record_sample : MemoryLeakDetector → MemorySample → MemoryLeakDetector
record_sample d sample = record d {
  samples =
      (if leb d.max_samples (length d.samples) then drop 1 d.samples else d.samples) ++ sample ∷ [];
}

-- The branches on `leaking` and `is_leaking`.
unfoldable pub set_leaking : MemoryLeakDetector → Bool → DateTime → MemoryLeakDetector
set_leaking d leaking now =
    if leaking && not d.is_leaking
    then record d { is_leaking = true; leak_detected_at = some now }
    else if not leaking && d.is_leaking
    then record d { is_leaking = false; leak_detected_at = none }
    else d

module _ (f : FloatOps) where
  -- The loop over the window: each sample with the one before it.
  unfoldable pub count_growth : F64 → ℕ → MemorySample → List MemorySample → ℕ
  count_growth threshold n previous [] = n
  count_growth threshold n previous (current ∷ rest) =
      let growth = f.sub (f.of_nat current.rss_bytes) (f.of_nat previous.rss_bytes) in
      let growth_pct = f.mul (f.div growth (f.of_nat previous.rss_bytes)) (f.of_nat 100) in
      count_growth threshold
        (if previous.rss_bytes == 0 then n else if f.lt threshold growth_pct then n + 1 else 0)
        current rest

  unfoldable pub growth_of : F64 → List MemorySample → ℕ
  unfolding count_growth
  growth_of threshold [] = 0
  growth_of threshold (s ∷ ss) = count_growth threshold 0 s ss

  unfoldable pub is_growing : MemoryLeakDetector → Bool
  unfolding growth_of
  is_growing d =
      let recent = drop (length d.samples - d.window_size - 1) d.samples in
      leb d.consecutive_growth_limit (growth_of d.growth_threshold_pct recent)

  unfoldable pub detect_leak : MemoryLeakDetector → DateTime → MemoryLeakDetector × Bool
  unfolding is_growing set_leaking
  detect_leak d now =
      if ltb (length d.samples) (d.window_size + 1)
      then (d, false)
      else (let d' = set_leaking d (is_growing d) now in (d', d'.is_leaking))

pub data MemoryTrend : Type 0 where
  increasing stable decreasing unclear : MemoryTrend

abbrev last_of : MemorySample → List MemorySample → MemorySample
last_of s [] = s
last_of s (t ∷ ts) = last_of t ts

module _ (f : FloatOps) where
  -- The newest sample against the oldest of the last five. `-x` is written `0 - x`.
  unfoldable pub trend_of : F64 → List MemorySample → MemoryTrend
  trend_of threshold [] = unclear
  trend_of threshold (newest ∷ []) = unclear
  trend_of threshold (newest ∷ s ∷ ss) =
      let oldest = last_of s ss in
      let change = f.sub (f.of_nat newest.rss_bytes) (f.of_nat oldest.rss_bytes) in
      let change_pct =
        if ltb 0 oldest.rss_bytes
        then f.mul (f.div change (f.of_nat oldest.rss_bytes)) (f.of_nat 100)
        else f.literal 0 1 in
      if f.lt (f.mul threshold (f.of_nat 2)) change_pct
      then increasing
      else if f.lt change_pct (f.sub (f.literal 0 1) threshold)
      then decreasing
      else stable

  unfoldable pub get_memory_trend : MemoryLeakDetector → MemoryTrend
  unfolding trend_of
  get_memory_trend d = trend_of d.growth_threshold_pct (take 5 (reverse d.samples))

unfoldable pub get_current_rss : MemoryLeakDetector → Option ℕ
get_current_rss d = elim (reverse d.samples) [ [] ↦ none | s ∷ ss ↦ some s.rss_bytes ]

unfoldable pub peak : Option ℕ → List MemorySample → Option ℕ
peak best [] = best
peak none (s ∷ ss) = peak (some s.rss_bytes) ss
peak (some b) (s ∷ ss) = peak (some (if ltb b s.rss_bytes then s.rss_bytes else b)) ss

unfoldable pub get_peak_rss : MemoryLeakDetector → Option ℕ
unfolding peak
get_peak_rss d = peak none d.samples
