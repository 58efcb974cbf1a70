-- ===== src/Security/Profiles.antt =====
-- The profiles of an agent in crates/security/src/lib.rs: where it connects to, how much, and when.
use mathlib.Core.List.{reverse}
use omnisec.Prelude.{
  ℕ, ◌+◌, ◌-◌, ◌/◌, ◌%◌, ◌^◌, ◌*◌, String, Bool, true, false, not, ◌&&◌, Option, none, some, List,
  [], ◌∷◌, ◌++◌, any, retain, update_first, length, take, get_elem?, ltb, ◌==◌, if◌then◌else◌,
}
use text.Mathlib.Text.{◌==◌ as str_eq}
use omnisec.Prelude.Maps.{add_number, has_number}
use omnisec.Prelude.Texts.{StringSet, insert}
use omnisec.Prelude.External.{DateTime, F64, FloatOps, nanos_per_sec}

abbrev pub word : ℕ → ℕ
word n = n % 2 ^ 64

pub record DestinationEntry : Type 0 where
  pub domain : String
  pub ip : String
  pub port : ℕ
  pub protocol : String
  pub first_seen : DateTime
  pub last_seen : DateTime
  pub total_bytes : ℕ
  pub request_count : ℕ

pub record AgentDestinationProfile : Type 0 where
  pub pid : ℕ
  pub agent_name : String
  pub known_destinations : List DestinationEntry
  pub known_ports : List ℕ
  pub known_protocols : StringSet

unfoldable pub new_destination_profile : ℕ → String → AgentDestinationProfile
new_destination_profile pid agent_name = record {
  pid = pid;
  agent_name = agent_name;
  known_destinations = [];
  known_ports = [];
  known_protocols = [];
}

abbrev pub same_destination : String → ℕ → String → DestinationEntry → Bool
same_destination ip port protocol d = str_eq d.ip ip && d.port == port && str_eq d.protocol protocol

unfoldable pub is_known : AgentDestinationProfile → String → ℕ → String → Bool
is_known p ip port protocol = any (same_destination ip port protocol) p.known_destinations

abbrev pub seen_again : DateTime → ℕ → DestinationEntry → DestinationEntry
seen_again now bytes d = record d {
  last_seen = now;
  total_bytes = word (d.total_bytes + bytes);
  request_count = word (d.request_count + 1);
}

unfoldable pub record_destination :
    DateTime
    → AgentDestinationProfile
    → String
    → String
    → ℕ
    → String
    → ℕ
    → AgentDestinationProfile × Bool
unfolding is_known
record_destination now p domain ip port protocol bytes =
    if not (is_known p ip port protocol)
    then (
      record p {
        known_destinations =
            p.known_destinations
            ++ (record {
              domain = domain;
              ip = ip;
              port = port;
              protocol = protocol;
              first_seen = now;
              last_seen = now;
              total_bytes = bytes;
              request_count = 1;
            })
              ∷ [];
        known_ports = add_number port p.known_ports;
        known_protocols = insert protocol p.known_protocols;
      },
      true,
    )
    else (
      record p {
        known_destinations =
            update_first (same_destination ip port protocol) (seen_again now bytes)
              p.known_destinations;
      },
      false,
    )

unfoldable pub is_known_port : AgentDestinationProfile → ℕ → Bool
is_known_port p port = has_number p.known_ports port

unfoldable pub destination_count : AgentDestinationProfile → ℕ
destination_count p = length p.known_destinations

pub record TrafficSample : Type 0 where
  pub timestamp : DateTime
  pub bytes_in : ℕ
  pub bytes_out : ℕ
  pub request_count : ℕ
  pub connection_count : ℕ

pub record AgentTrafficProfile : Type 0 where
  pub pid : ℕ
  pub agent_name : String
  pub hour_samples : List TrafficSample
  pub day_samples : List TrafficSample
  pub week_samples : List TrafficSample

unfoldable pub new_traffic_profile : ℕ → String → AgentTrafficProfile
new_traffic_profile pid agent_name = record {
  pid = pid;
  agent_name = agent_name;
  hour_samples = [];
  day_samples = [];
  week_samples = [];
}

abbrev pub minute : ℕ
minute = 60 * nanos_per_sec

-- A difference of instants below 0 counts as 0: it is below each bound too.
abbrev pub within : ℕ → ℕ → DateTime → TrafficSample → Bool
within unit bound now s = ltb ((now - s.timestamp) / unit) bound

unfoldable pub record_traffic : AgentTrafficProfile → TrafficSample → AgentTrafficProfile
record_traffic p sample = record p {
  hour_samples = retain (within minute 60 sample.timestamp) (p.hour_samples ++ sample ∷ []);
  day_samples = retain (within (60 * minute) 24 sample.timestamp) (p.day_samples ++ sample ∷ []);
  week_samples =
      retain (within (1_440 * minute) 7 sample.timestamp) (p.week_samples ++ sample ∷ []);
}

-- `iter().map(field).sum()` of an integer type with that many bits
unfoldable pub sum_of : ℕ → (TrafficSample → ℕ) → ℕ → List TrafficSample → ℕ
sum_of bits field total [] = total
sum_of bits field total (s ∷ ss) = sum_of bits field ((total + field s) % 2 ^ bits) ss

module _ (f : FloatOps) where
  unfoldable pub average_of : ℕ → (TrafficSample → ℕ) → List TrafficSample → F64
  unfolding sum_of
  average_of bits field ss =
      if length ss == 0
      then f.literal 0 1
      else f.div (f.of_nat (sum_of bits field 0 ss)) (f.of_nat (length ss))

  unfoldable pub avg_bytes_in_per_min : AgentTrafficProfile → F64
  unfolding average_of
  avg_bytes_in_per_min p = average_of 64 (λ s. s.bytes_in) p.hour_samples

  unfoldable pub avg_bytes_out_per_min : AgentTrafficProfile → F64
  unfolding average_of
  avg_bytes_out_per_min p = average_of 64 (λ s. s.bytes_out) p.hour_samples

  unfoldable pub avg_requests_per_min : AgentTrafficProfile → F64
  unfolding average_of
  avg_requests_per_min p = average_of 32 (λ s. s.request_count) p.hour_samples

  unfoldable pub current_traffic_rate : AgentTrafficProfile → F64 × F64 × F64
  unfolding average_of
  current_traffic_rate p =
      let last_5 = take 5 (reverse p.hour_samples) in
      if ltb (length p.hour_samples) 2 then (f.literal 0 1, f.literal 0 1, f.literal 0 1) else (
        average_of 64 (λ s. s.bytes_in) last_5,
        average_of 64 (λ s. s.bytes_out) last_5,
        average_of 32 (λ s. s.request_count) last_5,
      )

  unfoldable pub detect_traffic_spike : AgentTrafficProfile → F64 → Option (F64 × F64)
  unfolding avg_bytes_in_per_min current_traffic_rate
  detect_traffic_spike p multiplier =
      let avg_in_hour = avg_bytes_in_per_min p in
      let cur_in = (current_traffic_rate p).0 in
      if f.lt (f.literal 0 1) avg_in_hour && f.lt (f.mul avg_in_hour multiplier) cur_in
      then some (cur_in, avg_in_hour)
      else if f.le avg_in_hour (f.literal 0 1) && f.lt (f.literal 100_000 1) cur_in
      then some (cur_in, f.literal 0 1)
      else none

  unfoldable pub detect_outbound_spike : AgentTrafficProfile → F64 → Option (F64 × F64)
  unfolding sum_of
  detect_outbound_spike p ratio_threshold =
      let total_in = sum_of 64 (λ s. s.bytes_in) 0 p.hour_samples in
      let total_out = sum_of 64 (λ s. s.bytes_out) 0 p.hour_samples in
      if total_in == 0 && ltb 0 total_out
      then some (f.of_nat total_out, f.literal 0 1)
      else if ltb 0 total_in
          && f.lt ratio_threshold (f.div (f.of_nat total_out) (f.of_nat total_in))
      then some (f.of_nat total_out, f.of_nat total_in)
      else none

pub record AgentTimeProfile : Type 0 where
  pub pid : ℕ
  pub agent_name : String
  pub hourly_activity : List ℕ
  pub total_observations : ℕ
  pub days_tracked : ℕ
  pub active_hours : List ℕ

abbrev pub zeros : List ℕ
zeros =
    0 ∷ 0 ∷ 0 ∷ 0 ∷ 0 ∷ 0 ∷ 0 ∷ 0 ∷ 0 ∷ 0 ∷ 0 ∷ 0 ∷ 0 ∷ 0 ∷ 0 ∷ 0 ∷ 0 ∷ 0 ∷ 0 ∷ 0 ∷ 0 ∷ 0 ∷ 0 ∷ 0
    ∷ []

unfoldable pub new_time_profile : ℕ → String → AgentTimeProfile
new_time_profile pid agent_name = record {
  pid = pid;
  agent_name = agent_name;
  hourly_activity = zeros;
  total_observations = 0;
  days_tracked = 0;
  active_hours = [];
}

-- `timestamp.hour()`
abbrev pub hour_of : DateTime → ℕ
hour_of t = t / (60 * minute) % 24

abbrev pub at_hour : List ℕ → ℕ → ℕ
at_hour hours h = elim (get_elem? hours h) [ none ↦ 0 | some n ↦ n ]

abbrev pub count_at : List ℕ → ℕ → List ℕ
count_at [] h = []
count_at (n ∷ ns) h = if h == 0 then word (n + 1) ∷ ns else n ∷ count_at ns (h - 1)

-- An hour is below 24.
unfoldable pub record_hour : AgentTimeProfile → DateTime → AgentTimeProfile
record_hour p timestamp =
    let hour = hour_of timestamp in
    let hours = count_at p.hourly_activity hour in
    let total = word (p.total_observations + 1) in
    record p {
      hourly_activity = hours;
      total_observations = total;
      active_hours =
          if ltb (total / 48) (at_hour hours hour)
          then add_number hour p.active_hours
          else p.active_hours;
    }

unfoldable pub is_time_anomaly : AgentTimeProfile → DateTime → Bool
is_time_anomaly p timestamp =
    if ltb p.total_observations 48
    then false
    else not (has_number p.active_hours (hour_of timestamp))

-- `expected == 0.0` is two comparisons.
unfoldable pub get_hour_anomaly_score : FloatOps → AgentTimeProfile → DateTime → F64
get_hour_anomaly_score f p timestamp =
    let expected = f.div (f.of_nat p.total_observations) (f.literal 240 1) in
    let actual = f.of_nat (at_hour p.hourly_activity (hour_of timestamp)) in
    if p.total_observations == 0
    then f.literal 0 1
    else if f.le expected (f.literal 0 1) && f.le (f.literal 0 1) expected
    then (if f.lt (f.literal 0 1) actual then f.literal 10 1 else f.literal 0 1)
    else f.div (f.sub actual expected) expected
