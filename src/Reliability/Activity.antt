-- ===== src/Reliability/Activity.antt =====
-- `AgentActivityTracker` of crates/reliability/src/activity.rs. The signed numbers wrap around, as in a
-- release build.
use mathlib.Core.List.{reverse}
use omnisec.Prelude.{
  ℕ, ◌+◌, ◌-◌, ◌*◌, ◌/◌, ◌%◌, ◌^◌, String, Bool, true, false, not, ◌&&◌, ◌||◌, Option, none, some,
  List, [], ◌∷◌, ◌++◌, ◌==◌, ltb, leb, map, if◌then◌else◌, length, drop,
}
use omnisec.Prelude.Integers.{ℤ, pos, negsuc, wrapping_difference}
use omnisec.Prelude.External.{DateTime, nanos_per_sec}

pub record ActivitySample : Type 0 where
  pub timestamp : DateTime
  pub cpu_time_ms : ℕ
  pub memory_bytes : ℕ
  pub fd_count : ℕ
  pub thread_count : ℕ
  pub network_rx_bytes : ℕ
  pub network_tx_bytes : ℕ
  pub disk_read_bytes : ℕ
  pub disk_write_bytes : ℕ

pub record ActivityDelta : Type 0 where
  pub cpu_delta : ℕ
  pub memory_delta : ℤ
  pub fd_delta : ℤ
  pub thread_delta : ℤ
  pub network_rx_delta : ℕ
  pub network_tx_delta : ℕ
  pub disk_read_delta : ℕ
  pub disk_write_delta : ℕ

pub record ActivityTracker : Type 0 where
  pub pid : ℕ
  pub agent_name : String
  pub samples : List ActivitySample
  pub max_samples : ℕ
  pub hang_threshold_secs : ℕ
  pub last_heartbeat : DateTime
  pub is_hung : Bool
  pub hung_since : Option DateTime

unfoldable pub new_tracker : ℕ → String → ℕ → DateTime → ActivityTracker
new_tracker pid agent_name hang_threshold_secs now = record {
  pid = pid;
  agent_name = agent_name;
  samples = [];
  max_samples = 100;
  hang_threshold_secs = hang_threshold_secs;
  last_heartbeat = now;
  is_hung = false;
  hung_since = none;
}

unfoldable pub record_activity : ActivityTracker → ActivitySample → DateTime → ActivityTracker
record_activity a sample now = record a {
  last_heartbeat = now;
  samples =
      (if leb a.max_samples (length a.samples) then drop 1 a.samples else a.samples) ++ sample ∷ [];
}

-- `saturating_sub` is the subtraction of ℕ.
unfoldable pub delta_of : ActivitySample → ActivitySample → ActivityDelta
delta_of current previous = record {
  cpu_delta = current.cpu_time_ms - previous.cpu_time_ms;
  memory_delta = wrapping_difference 64 current.memory_bytes previous.memory_bytes;
  fd_delta = wrapping_difference 32 current.fd_count previous.fd_count;
  thread_delta = wrapping_difference 32 current.thread_count previous.thread_count;
  network_rx_delta = current.network_rx_bytes - previous.network_rx_bytes;
  network_tx_delta = current.network_tx_bytes - previous.network_tx_bytes;
  disk_read_delta = current.disk_read_bytes - previous.disk_read_bytes;
  disk_write_delta = current.disk_write_bytes - previous.disk_write_bytes;
}

-- The delta of the last sample and the one before it, from the samples in reverse.
unfoldable pub delta_in : List ActivitySample → Option ActivityDelta
unfolding delta_of
delta_in [] = none
delta_in (current ∷ []) = none
delta_in (current ∷ previous ∷ rest) = some (delta_of current previous)

unfoldable pub calculate_delta : ActivityTracker → Option ActivityDelta
unfolding delta_in
calculate_delta a = delta_in (reverse a.samples)

-- `delta.abs() > bound` of an i64, whose least value is its own `abs`.
abbrev pub exceeds : ℕ → ℤ → Bool
exceeds bound (pos n) = ltb bound n
exceeds bound (negsuc n) = ltb bound (n + 1) && ltb (n + 1) (2 ^ 63)

abbrev pub is_zero : ℤ → Bool
is_zero (pos n) = n == 0
is_zero (negsuc n) = false

unfoldable pub is_active : ActivityDelta → Bool
is_active d =
    ltb 100 d.cpu_delta
    || exceeds 1024 d.memory_delta
    || not (is_zero d.fd_delta)
    || not (is_zero d.thread_delta)
    || (ltb 0 d.network_rx_delta || ltb 0 d.network_tx_delta)
    || (ltb 0 d.disk_read_delta || ltb 0 d.disk_write_delta)

unfoldable pub is_activity_significant : ActivityTracker → Bool
unfolding calculate_delta is_active
is_activity_significant a = elim (calculate_delta a) [ none ↦ true | some d ↦ is_active d ]

-- The branches on `hung` and `is_hung`.
unfoldable pub set_hung : ActivityTracker → Bool → DateTime → ActivityTracker
set_hung a hung since =
    if hung && not a.is_hung
    then record a { is_hung = true; hung_since = some since }
    else if not hung && a.is_hung
    then record a { is_hung = false; hung_since = none }
    else a

unfoldable pub detect_hang_in :
    ActivityTracker → List ActivitySample → DateTime → ActivityTracker × Bool
unfolding is_activity_significant set_hung
detect_hang_in a [] now = (a, false)
detect_hang_in a (last_sample ∷ rest) now =
    let overdue = ltb (last_sample.timestamp + a.hang_threshold_secs * nanos_per_sec) now in
    let a' = set_hung a (not (is_activity_significant a) && overdue) last_sample.timestamp in
    (a', a'.is_hung)

unfoldable pub detect_hang : ActivityTracker → DateTime → ActivityTracker × Bool
unfolding detect_hang_in
detect_hang a now = detect_hang_in a (reverse a.samples) now

pub record ActivitySummary : Type 0 where
  pub sample_count : ℕ
  pub avg_cpu_time_ms : ℕ
  pub avg_memory_bytes : ℕ
  pub avg_fd_count : ℕ
  pub avg_thread_count : ℕ
  pub is_hung : Bool
  pub hung_since : Option DateTime
  pub last_heartbeat : DateTime

abbrev pub sum_in : ℕ → List ℕ → ℕ
sum_in modulus [] = 0
sum_in modulus (n ∷ ns) = (n + sum_in modulus ns) % modulus

-- The average of u64 or u32 values, by their modulus; the division is by a count that is not 0.
unfoldable pub average : ℕ → List ℕ → ℕ
average modulus ns = sum_in modulus ns / (length ns % modulus)

unfoldable pub get_activity_summary : ActivityTracker → ActivitySummary
unfolding average
get_activity_summary a =
    if length a.samples == 0
    then record {
      sample_count = 0;
      avg_cpu_time_ms = 0;
      avg_memory_bytes = 0;
      avg_fd_count = 0;
      avg_thread_count = 0;
      is_hung = false;
      hung_since = none;
      last_heartbeat = 0;
    }
    else record {
      sample_count = length a.samples;
      avg_cpu_time_ms = average (2 ^ 64) (map (λ s. s.cpu_time_ms) a.samples);
      avg_memory_bytes = average (2 ^ 64) (map (λ s. s.memory_bytes) a.samples);
      avg_fd_count = average (2 ^ 32) (map (λ s. s.fd_count) a.samples);
      avg_thread_count = average (2 ^ 32) (map (λ s. s.thread_count) a.samples);
      is_hung = a.is_hung;
      hung_since = a.hung_since;
      last_heartbeat = a.last_heartbeat;
    }
