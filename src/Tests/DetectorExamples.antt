-- ===== src/Tests/DetectorExamples.antt =====
-- Examples for the detectors of memory leaks and hangs.
use omnisec.Prelude.{ℕ, ◌≡◌, refl, leb, true, false, none, List, [], ◌∷◌}
use omnisec.Reliability.Memory.{MemorySample, MemoryLeakDetector, new_detector, is_growing}
use omnisec.Reliability.Descriptors.{FdSample, FdExhaustionDetector, new_fd_detector, usage_of}
use omnisec.Reliability.Flags.{Timed, expected, after, detect_exhaustion-record_fd_sample}
use omnisec.Reliability.Samples.{Call, sampling, detecting, run, Windowed, run-Windowed}
use omnisec.Reliability.Activity.{ActivitySample, ActivityTracker}
use omnisec.Tests.Fixtures.{thousandths}

abbrev sample : ℕ → MemorySample
sample n = record { timestamp = n; rss_bytes = n; vsz_bytes = n }

abbrev calls : List Call
calls = sampling (sample 100) ∷ sampling (sample 150) ∷ detecting 5 ∷ sampling (sample 200) ∷ []

run-Windowed_example :
    Windowed thousandths 100
      (sample 100 ∷ sample 150 ∷ sample 200 ∷ [])
      (run thousandths (new_detector 7 "agent" 5_000 3) calls)
run-Windowed_example = run-Windowed thousandths 7 "agent" 5_000 3 calls

-- A detector that looks at three samples and reports two growths in a row.
abbrev small : MemoryLeakDetector
small = record {
  pid = 7;
  agent_name = "agent";
  samples = sample 100 ∷ sample 150 ∷ sample 200 ∷ [];
  max_samples = 100;
  window_size = 2;
  growth_threshold_pct = 5_000;
  consecutive_growth_limit = 2;
  is_leaking = false;
  leak_detected_at = none;
}

leak_run : is_growing thousandths small ≡ true
unfolding is_growing
leak_run = refl

abbrev idle : ℕ → ActivitySample
idle n = record {
  timestamp = n;
  cpu_time_ms = 100;
  memory_bytes = 5_000;
  fd_count = 3;
  thread_count = 1;
  network_rx_bytes = 0;
  network_tx_bytes = 0;
  disk_read_bytes = 0;
  disk_write_bytes = 0;
}

abbrev tracker : ActivityTracker
tracker = record {
  pid = 7;
  agent_name = "agent";
  samples = idle 0 ∷ idle 1_000_000_000 ∷ [];
  max_samples = 100;
  hang_threshold_secs = 60;
  last_heartbeat = 1_000_000_000;
  is_hung = false;
  hung_since = none;
}

abbrev descriptors : FdExhaustionDetector
descriptors = new_fd_detector 7 "agent" 80_000

abbrev many : FdSample
many = record { timestamp = 9; fd_count = 900; fd_limit = 1_000 }

fresh-Timed : Timed descriptors.is_exhausted descriptors.exhaustion_detected_at
unfolding new_fd_detector
fresh-Timed = refl

detect_exhaustion-record_fd_sample_example :
    ((after thousandths descriptors many 10).1
      ≡ leb descriptors.threshold_percent (usage_of thousandths many))
    × ((after thousandths descriptors many 10).0.is_exhausted
        ≡ leb descriptors.threshold_percent (usage_of thousandths many))
    × ((after thousandths descriptors many 10).0.exhaustion_detected_at
        ≡ expected
            (leb descriptors.threshold_percent (usage_of thousandths many))
            10
            descriptors.exhaustion_detected_at
            descriptors.is_exhausted)
detect_exhaustion-record_fd_sample_example =
    detect_exhaustion-record_fd_sample thousandths descriptors many 10 fresh-Timed
