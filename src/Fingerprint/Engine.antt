-- ===== src/Fingerprint/Engine.antt =====
-- `FingerprintManager` of crates/fingerprint/src/lib.rs. The fresh id and the time are arguments.
use omnisec.Prelude.{
  ℕ, ◌+◌, ◌-◌, ◌%◌, ◌^◌, String, not, Option, none, some, List, [], ◌∷◌, ◌++◌, length, retain, ltb,
  ◌==◌, get_elem?, if◌then◌else◌,
}
use omnisec.Prelude.Maps.{NatMap, get, put, put_new, alter, has_number}
use omnisec.Prelude.Texts.{contains}
use omnisec.Prelude.External.{DateTime, F64, FloatOps, F64Text, Uuid}
use omnisec.Fingerprint.Types.{AgentFingerprint, FingerprintDrift}
use omnisec.Fingerprint.Builder.{
  FingerprintBuilder, new_builder, Observation, record_observation, build,
}

pub record FingerprintManager : Type 0 where
  pub fingerprints : NatMap AgentFingerprint
  pub history : NatMap (List AgentFingerprint)
  pub builders : NatMap FingerprintBuilder

unfoldable pub new_fingerprint_manager : FingerprintManager
new_fingerprint_manager = record { fingerprints = []; history = []; builders = [] }

unfoldable pub register_builder : FingerprintManager → ℕ → String → FingerprintManager
register_builder m pid name = record m { builders = put_new m.builders pid (new_builder pid name) }

unfoldable pub observe : FingerprintManager → ℕ → Observation → FingerprintManager
observe m pid o = record m { builders = alter m.builders pid (λ b. record_observation b o) }

-- `history.entry(pid).or_default().push(fingerprint)`
abbrev pub push_history :
    NatMap (List AgentFingerprint) → ℕ → AgentFingerprint → NatMap (List AgentFingerprint)
push_history h pid fingerprint =
    alter (put_new h pid []) pid (λ versions. versions ++ fingerprint ∷ [])

abbrev pub next_version : Option AgentFingerprint → ℕ → ℕ
next_version none version = version
next_version (some current) version = (current.version + 1) % 2 ^ 32

unfoldable pub get_fingerprint : FingerprintManager → ℕ → Option AgentFingerprint
get_fingerprint m pid = get m.fingerprints pid

unfoldable pub get_history : FingerprintManager → ℕ → List AgentFingerprint
get_history m pid = elim (get m.history pid) [ none ↦ [] | some versions ↦ versions ]

module _ (f : FloatOps) where
  unfoldable pub finalize_fingerprint :
      F64Text
      → Uuid
      → DateTime
      → FingerprintManager
      → ℕ
      → FingerprintManager × Option AgentFingerprint
  finalize_fingerprint t id now m pid = elim (get m.builders pid) [
    | none ↦ (m, none)
    | some b ↦
        let built = build f t id now b in
        let fingerprint : AgentFingerprint = record built {
          version = next_version (get m.fingerprints pid) built.version;
        } in
        (
          record m {
            history = push_history m.history pid fingerprint;
            fingerprints = put m.fingerprints pid fingerprint;
            builders = put m.builders pid (new_builder pid b.agent_name);
          },
          some fingerprint,
        )
  ]

  at_least_one : ℕ → ℕ
  at_least_one n = if ltb n 1 then 1 else n

  -- The share of `n` new in `old`, times a weight.
  abbrev pub share : ℕ → ℕ → F64 → F64
  unfolding at_least_one
  share n old weight = f.mul (f.div (f.of_nat n) (f.of_nat (at_least_one old))) weight

  unfoldable pub drift_between : AgentFingerprint → AgentFingerprint → FingerprintDrift
  unfolding retain contains
  drift_between current previous =
      let new_destinations =
        retain (λ d. not (contains previous.destinations.domains d)) current.destinations.domains in
      let new_ports =
        retain (λ p. not (has_number previous.destinations.ports p)) current.destinations.ports in
      let before = previous.traffic.avg_bytes_in_per_min in
      let traffic_change =
        if f.lt (f.literal 0 1) before
        then f.mul (f.div (f.sub current.traffic.avg_bytes_in_per_min before) before)
            (f.literal 1000 1)
        else f.literal 0 1 in
      let new_hours =
        retain (λ h. not (has_number previous.timing.active_hours h)) current.timing.active_hours in
      let time_change =
        if length previous.timing.active_hours == 0
        then f.literal 0 1
        else f.mul
            (f.div (f.of_nat (length new_hours)) (f.of_nat (length previous.timing.active_hours)))
            (f.literal 1000 1) in
      let dest_score =
        share (length new_destinations) (length previous.destinations.domains) (f.literal 300 1) in
      let port_score =
        share (length new_ports) (length previous.destinations.ports) (f.literal 200 1) in
      let traffic_score =
        f.mul (f.f64_min (f.div (f.abs traffic_change) (f.literal 2000 1)) (f.literal 10 1))
          (f.literal 300 1) in
      let time_score =
        f.mul (f.f64_min (f.div time_change (f.literal 1000 1)) (f.literal 10 1))
          (f.literal 200 1) in
      record {
        drift_score =
            f.f64_min (f.add (f.add (f.add dest_score port_score) traffic_score) time_score)
              (f.literal 1000 1);
        new_destinations = new_destinations;
        traffic_change_percent = traffic_change;
        time_change_percent = time_change;
        dest_score = dest_score;
        port_score = port_score;
        traffic_score = traffic_score;
        time_score = time_score;
      }

  -- The last fingerprint and the one before it.
  abbrev pub drift_found :
      Option AgentFingerprint → Option AgentFingerprint → Option FingerprintDrift
  drift_found none previous = none
  drift_found (some current) none = none
  drift_found (some current) (some previous) = some (drift_between current previous)

  unfoldable pub drift_of : List AgentFingerprint → Option FingerprintDrift
  unfolding drift_between
  drift_of history =
      if ltb (length history) 2
      then none
      else drift_found (get_elem? history (length history - 1))
          (get_elem? history (length history - 2))

  unfoldable pub detect_drift : FingerprintManager → ℕ → Option FingerprintDrift
  unfolding drift_of
  detect_drift m pid = elim (get m.history pid) [ none ↦ none | some history ↦ drift_of history ]
