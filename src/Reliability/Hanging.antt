-- ===== src/Reliability/Hanging.antt =====
-- When the tracker of crates/reliability/src/activity.rs reports an agent as hung.
use omnisec.Prelude.{
  ℕ, ◌+◌, ◌*◌, ◌^◌, ◌<◌, ◌≡◌, All, Bool, true, false, ◌&&◌, none, some, List, [], ◌∷◌, ◌==◌, ltb,
  leb, if◌then◌else◌,
}
use omnisec.Prelude.External.{DateTime, nanos_per_sec}
use omnisec.Reliability.Activity.{ActivitySample, ActivityTracker, delta_in, is_active}

-- From one sample to the next nothing but a little processor time and memory has changed, and no
-- counter has gone up.
abbrev pub is_quiet : ActivitySample → ActivitySample → Bool
is_quiet current previous =
    leb current.cpu_time_ms (previous.cpu_time_ms + 100)
    && (leb current.memory_bytes (previous.memory_bytes + 1024)
        && leb previous.memory_bytes (current.memory_bytes + 1024))
    && current.fd_count == previous.fd_count
    && current.thread_count == previous.thread_count
    && (leb current.network_rx_bytes previous.network_rx_bytes
        && leb current.network_tx_bytes previous.network_tx_bytes)
    && (leb current.disk_read_bytes previous.disk_read_bytes
        && leb current.disk_write_bytes previous.disk_write_bytes)

-- The agent hangs, by its samples in reverse: there are two of them, the last two are quiet, and the
-- last one is older than the threshold.
abbrev pub is_hanging : ℕ → DateTime → List ActivitySample → Bool
is_hanging threshold now [] = false
is_hanging threshold now (s ∷ []) = false
is_hanging threshold now (s ∷ p ∷ rest) =
    is_quiet s p && ltb (s.timestamp + threshold * nanos_per_sec) now

-- The start of the hang is known exactly while there is one.
abbrev pub is_dated : ActivityTracker → Bool
is_dated a =
    if a.is_hung
    then (elim a.hung_since [ none ↦ false | some t ↦ true ])
    else (elim a.hung_since [ none ↦ true | some t ↦ false ])

-- The counts of descriptors and threads are u32, and the memory is below the greatest i64.
abbrev pub Fits : ActivitySample → Type 0
Fits s = (s.memory_bytes < 2 ^ 63) × (s.fd_count < 2 ^ 32) × (s.thread_count < 2 ^ 32)

-- Whether the tracker finds activity, by the samples in reverse.
abbrev significant : List ActivitySample → Bool
significant xs = elim (delta_in xs) [ none ↦ true | some d ↦ is_active d ]

module _ (a : ActivityTracker) (now : DateTime) (dated : is_dated a ≡ true)
    (fits : All Fits a.samples) where
  abbrev Detected : List ActivitySample → ActivityTracker × Bool → Type 0
  Detected xs r =
      (r.1 ≡ is_hanging a.hang_threshold_secs now xs)
      × (is_dated r.0 ≡ true)
      × (r.0.samples ≡ a.samples)
