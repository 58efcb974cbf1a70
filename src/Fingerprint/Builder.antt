-- ===== src/Fingerprint/Builder.antt =====
-- `FingerprintBuilder` of crates/fingerprint/src/lib.rs.
use omnisec.Prelude.{
  ℕ, ◌+◌, ◌%◌, ◌^◌, String, List, [], ◌∷◌, ◌++◌, map, length, retain, ltb, leb, ◌==◌, if◌then◌else◌,
}
use omnisec.Prelude.Maps.{NatMap, put_new, alter, add_number, keys}
use omnisec.Prelude.Texts.{StringSet, contains, insert}
use omnisec.Prelude.External.{DateTime, F64, FloatOps, F64Text, Uuid}
use omnisec.Fingerprint.Types.{AgentFingerprint}

pub record FingerprintBuilder : Type 0 where
  pub pid : ℕ
  pub agent_name : String
  pub domains : List String
  pub ip_ranges : List String
  pub ports : List ℕ
  pub protocols : StringSet
  pub bytes_in_samples : List F64
  pub bytes_out_samples : List F64
  pub connection_samples : List F64
  pub hourly_samples : NatMap ℕ
  pub cpu_samples : List F64
  pub memory_samples : List F64
  pub fd_samples : List ℕ
  pub thread_samples : List ℕ
  pub sample_count : ℕ

unfoldable pub new_builder : ℕ → String → FingerprintBuilder
new_builder pid agent_name = record {
  pid = pid;
  agent_name = agent_name;
  domains = [];
  ip_ranges = [];
  ports = [];
  protocols = [];
  bytes_in_samples = [];
  bytes_out_samples = [];
  connection_samples = [];
  hourly_samples = [];
  cpu_samples = [];
  memory_samples = [];
  fd_samples = [];
  thread_samples = [];
  sample_count = 0;
}

-- The arguments of `record_sample` beside the agent.
pub record Observation : Type 0 where
  pub seen_domains : List String
  pub ip_range : String
  pub port : ℕ
  pub protocol : String
  pub bytes_in : F64
  pub bytes_out : F64
  pub connection_count : F64
  pub hour : ℕ
  pub cpu_percent : F64
  pub memory_mb : F64
  pub fd_count : ℕ
  pub thread_count : ℕ

-- `if !list.contains(&s) { list.push(s) }`
unfoldable pub push_new : List String → String → List String
unfolding contains
push_new names s = if contains names s then names else names ++ s ∷ []

unfoldable pub push_all_new : List String → List String → List String
unfolding push_new
push_all_new names [] = names
push_all_new names (s ∷ ss) = push_all_new (push_new names s) ss

unfoldable pub record_observation : FingerprintBuilder → Observation → FingerprintBuilder
unfolding push_new push_all_new
record_observation b o = record b {
  sample_count = (b.sample_count + 1) % 2 ^ 64;
  domains = push_all_new b.domains o.seen_domains;
  ip_ranges = push_new b.ip_ranges o.ip_range;
  ports = add_number o.port b.ports;
  protocols = insert o.protocol b.protocols;
  bytes_in_samples = b.bytes_in_samples ++ o.bytes_in ∷ [];
  bytes_out_samples = b.bytes_out_samples ++ o.bytes_out ∷ [];
  connection_samples = b.connection_samples ++ o.connection_count ∷ [];
  hourly_samples = alter (put_new b.hourly_samples o.hour 0) o.hour (λ n. (n + 1) % 2 ^ 64);
  cpu_samples = b.cpu_samples ++ o.cpu_percent ∷ [];
  memory_samples = b.memory_samples ++ o.memory_mb ∷ [];
  fd_samples = b.fd_samples ++ o.fd_count ∷ [];
  thread_samples = b.thread_samples ++ o.thread_count ∷ [];
}

-- `max_by_key` answers the last of the entries with the greatest count.
abbrev pub busiest : ℕ × ℕ → NatMap ℕ → ℕ × ℕ
busiest best [] = best
busiest best (e ∷ es) = busiest (if leb best.1 e.1 then e else best) es

unfoldable pub peak_of : NatMap ℕ → ℕ
peak_of [] = 12
peak_of (e ∷ es) = (busiest e es).0

-- `iter().sum::<u32>()`
abbrev pub u32_sum : ℕ → List ℕ → ℕ
u32_sum total [] = total
u32_sum total (n ∷ ns) = u32_sum ((total + n) % 2 ^ 32) ns

module _ (f : FloatOps) where
  abbrev pub float_sum : F64 → List F64 → F64
  float_sum total [] = total
  float_sum total (x ∷ xs) = float_sum (f.add total x) xs

  -- The mean and the standard deviation. A sum of f64 starts at 0.
  unfoldable pub compute_stats : List F64 → F64 × F64
  compute_stats values =
      let count = f.of_nat (length values) in
      let mean = f.div (float_sum (f.literal 0 1) values) count in
      let variance =
        f.div (float_sum (f.literal 0 1) (map (λ v. f.powi (f.sub v mean) 2) values))
          (f.sub count (f.literal 10 1)) in
      if length values == 0
      then (f.literal 0 1, f.literal 0 1)
      else if ltb (length values) 2
      then (mean, f.literal 0 1)
      else (mean, f.sqrt variance)

  unfoldable pub average_count : List ℕ → F64
  average_count counts =
      if length counts == 0
      then f.literal 0 1
      else f.div (f.of_nat (u32_sum 0 counts)) (f.of_nat (length counts))

  unfoldable pub build : F64Text → Uuid → DateTime → FingerprintBuilder → AgentFingerprint
  unfolding compute_stats average_count peak_of retain
  build t id now b = record {
    id = id;
    pid = b.pid;
    agent_name = b.agent_name;
    version = 1;
    created_at = now;
    updated_at = now;
    destinations = record {
      domains = b.domains;
      ip_ranges = b.ip_ranges;
      ports = b.ports;
      protocols = b.protocols;
    };
    traffic = record {
      avg_bytes_in_per_min = (compute_stats b.bytes_in_samples).0;
      avg_bytes_out_per_min = (compute_stats b.bytes_out_samples).0;
      std_dev_bytes_in = (compute_stats b.bytes_in_samples).1;
      std_dev_bytes_out = (compute_stats b.bytes_out_samples).1;
      avg_connection_count = (compute_stats b.connection_samples).0;
    };
    timing = record {
      active_hours = keys (retain (λ e. ltb 0 e.1) b.hourly_samples);
      avg_requests_per_min = (compute_stats b.connection_samples).0;
      peak_hour = peak_of b.hourly_samples;
    };
    process = record {
      typical_cpu_percent = (compute_stats b.cpu_samples).0;
      typical_memory_mb = (compute_stats b.memory_samples).0;
      typical_fd_count = t.to_nat 32 (average_count b.fd_samples);
      typical_thread_count = t.to_nat 32 (average_count b.thread_samples);
    };
    confidence_score =
        f.f64_min (f.mul (f.div (f.of_nat b.sample_count) (f.literal 10_000 1)) (f.literal 1000 1))
          (f.literal 1000 1);
    sample_count = b.sample_count;
  }
