-- ===== src/Security/Manager.antt =====
-- `AgentProfileManager` of crates/security/src/lib.rs. `now` is what `Utc::now` answers.
use omnisec.Prelude.{
  ℕ, ◌+◌, String, Bool, false, Option, none, some, List, [], ◌∷◌, ◌++◌, map, length, if◌then◌else◌,
}
use omnisec.Prelude.Maps.{NatMap, get, alter, put, put_new}
use omnisec.Prelude.External.{DateTime, F64, FloatOps, F64Text}
use omnisec.Security.Profiles.{
  AgentDestinationProfile, new_destination_profile, record_destination, destination_count,
  AgentTrafficProfile, new_traffic_profile, record_traffic, detect_traffic_spike,
  detect_outbound_spike, AgentTimeProfile, new_time_profile, record_hour, is_time_anomaly, word,
}
use omnisec.Security.Risk.{
  BaselineLearning, new_baseline, learn, should_generate_incidents, AgentRiskScore, new_risk_score,
  new_destination_found, traffic_spike_detected, outbound_spike_detected, time_anomaly_detected,
  u32_word,
}

pub record AgentProfileManager : Type 0 where
  pub destination_profiles : NatMap AgentDestinationProfile
  pub traffic_profiles : NatMap AgentTrafficProfile
  pub time_profiles : NatMap AgentTimeProfile
  pub baseline_learners : NatMap BaselineLearning
  pub risk_scores : NatMap AgentRiskScore

unfoldable pub new_profile_manager : AgentProfileManager
new_profile_manager = record {
  destination_profiles = [];
  traffic_profiles = [];
  time_profiles = [];
  baseline_learners = [];
  risk_scores = [];
}

pub data SecurityEvent : Type 0 where
  found_destination : ℕ → String → ℕ → SecurityEvent
  traffic_rose : ℕ → F64 → F64 → F64 → SecurityEvent
  outbound_rose : ℕ → ℕ → ℕ → SecurityEvent
  odd_hour : ℕ → SecurityEvent

unfoldable pub register_profiles : DateTime → AgentProfileManager → ℕ → String → AgentProfileManager
unfolding put_new new_destination_profile new_traffic_profile new_time_profile new_baseline
    new_risk_score
register_profiles now m pid name = record {
  destination_profiles = put_new m.destination_profiles pid (new_destination_profile pid name);
  traffic_profiles = put_new m.traffic_profiles pid (new_traffic_profile pid name);
  time_profiles = put_new m.time_profiles pid (new_time_profile pid name);
  baseline_learners = put_new m.baseline_learners pid (new_baseline now pid name);
  risk_scores = put_new m.risk_scores pid (new_risk_score pid name);
}

-- `risk_scores.get_mut(&pid)` and a change of what is found.
abbrev pub change_risk :
    ℕ → (AgentRiskScore → AgentRiskScore) → NatMap AgentRiskScore → NatMap AgentRiskScore
change_risk pid f risks = alter risks pid f

abbrev pub known_count : AgentProfileManager → ℕ → ℕ
known_count m pid = elim (get m.destination_profiles pid) [
  | none ↦ 0
  | some p ↦ u32_word (destination_count p)
]

abbrev pub can_alert : AgentProfileManager → ℕ → Bool
can_alert m pid = elim (get m.baseline_learners pid) [
  | none ↦ false
  | some b ↦ should_generate_incidents b
]

module _ (f : FloatOps) (t : F64Text) (now : DateTime) where
  -- The profiles take in the activity; the answer says whether the destination is new.
  unfoldable pub take_in :
      AgentProfileManager
      → ℕ
      → AgentDestinationProfile
      → String
      → String
      → ℕ
      → String
      → ℕ
      → ℕ
      → AgentProfileManager × Bool
  unfolding record_destination record_traffic record_hour learn
  take_in m pid p domain ip port protocol bytes_in bytes_out =
      let (p', is_new) =
        record_destination now p domain ip port protocol (word (bytes_in + bytes_out)) in
      (
        record m {
          destination_profiles = put m.destination_profiles pid p';
          traffic_profiles = alter m.traffic_profiles pid (λ q. record_traffic q (record {
            timestamp = now;
            bytes_in = bytes_in;
            bytes_out = bytes_out;
            request_count = 1;
            connection_count = 0;
          }));
          time_profiles = alter m.time_profiles pid (λ q. record_hour q now);
          baseline_learners = alter m.baseline_learners pid (λ b. (learn now b).0);
        },
        is_new,
      )

  -- The three anomalies, each with the risk scores it leaves.
  unfoldable pub destination_alert :
      AgentProfileManager
      → ℕ
      → String
      → ℕ
      → Bool
      → NatMap AgentRiskScore
      → NatMap AgentRiskScore × List SecurityEvent
  unfolding new_destination_found
  destination_alert m pid ip port is_new risks =
      if is_new
      then (
        change_risk pid (new_destination_found (known_count m pid)) risks,
        found_destination pid ip port ∷ [],
      )
      else (risks, [])

  unfoldable pub spike_alert :
      ℕ → AgentTrafficProfile → NatMap AgentRiskScore → NatMap AgentRiskScore × List SecurityEvent
  unfolding detect_traffic_spike traffic_spike_detected
  spike_alert pid p risks = elim (detect_traffic_spike f p (f.literal 30 1)) [
    | none ↦ (risks, [])
    | some x ↦
        let deviation = if f.lt (f.literal 0 1) x.1 then f.div x.0 x.1 else f.literal 50 1 in
        (
          change_risk pid (traffic_spike_detected t deviation) risks,
          traffic_rose pid x.0 x.1 deviation ∷ [],
        )
  ]

  unfoldable pub outbound_alert :
      ℕ → AgentTrafficProfile → NatMap AgentRiskScore → NatMap AgentRiskScore × List SecurityEvent
  unfolding detect_outbound_spike outbound_spike_detected
  outbound_alert pid p risks = elim (detect_outbound_spike f p (f.literal 50 1)) [
    | none ↦ (risks, [])
    | some x ↦
        let ratio = if f.lt (f.literal 0 1) x.1 then f.div x.0 x.1 else x.0 in
        (
          change_risk pid (outbound_spike_detected t ratio) risks,
          outbound_rose pid (t.to_nat 64 x.0) (t.to_nat 64 x.1) ∷ [],
        )
  ]

  unfoldable pub traffic_alerts :
      AgentProfileManager → ℕ → NatMap AgentRiskScore → NatMap AgentRiskScore × List SecurityEvent
  unfolding spike_alert outbound_alert
  traffic_alerts m pid risks = elim (get m.traffic_profiles pid) [
    | none ↦ (risks, [])
    | some p ↦
        let (risks', events) = spike_alert pid p risks in
        let (risks'', others) = outbound_alert pid p risks' in (risks'', events ++ others)
  ]

  unfoldable pub time_alert :
      AgentProfileManager → ℕ → NatMap AgentRiskScore → NatMap AgentRiskScore × List SecurityEvent
  unfolding is_time_anomaly time_anomaly_detected
  time_alert m pid risks = elim (get m.time_profiles pid) [
    | none ↦ (risks, [])
    | some p ↦
        if is_time_anomaly p now
        then (change_risk pid time_anomaly_detected risks, odd_hour pid ∷ [])
        else (risks, [])
  ]

  unfoldable pub raise_alerts :
      AgentProfileManager → ℕ → String → ℕ → Bool → AgentProfileManager × List SecurityEvent
  unfolding destination_alert traffic_alerts time_alert
  raise_alerts m pid ip port is_new =
      let (r1, e1) = destination_alert m pid ip port is_new m.risk_scores in
      let (r2, e2) = traffic_alerts m pid r1 in
      let (r3, e3) = time_alert m pid r2 in (record m { risk_scores = r3 }, e1 ++ e2 ++ e3)

  unfoldable pub record_network_activity :
      AgentProfileManager
      → ℕ
      → String
      → String
      → ℕ
      → String
      → ℕ
      → ℕ
      → AgentProfileManager × List SecurityEvent
  unfolding take_in raise_alerts
  record_network_activity m pid domain ip port protocol bytes_in bytes_out =
      elim (get m.destination_profiles pid) [
        | none ↦ (m, [])
        | some p ↦
            let (m', is_new) = take_in m pid p domain ip port protocol bytes_in bytes_out in
            if can_alert m' pid then raise_alerts m' pid ip port is_new else (m', [])
      ]

unfoldable pub get_risk_score : AgentProfileManager → ℕ → Option AgentRiskScore
get_risk_score m pid = get m.risk_scores pid

unfoldable pub get_baseline : AgentProfileManager → ℕ → Option BaselineLearning
get_baseline m pid = get m.baseline_learners pid

unfoldable pub get_destination_profile : AgentProfileManager → ℕ → Option AgentDestinationProfile
get_destination_profile m pid = get m.destination_profiles pid

unfoldable pub get_traffic_profile : AgentProfileManager → ℕ → Option AgentTrafficProfile
get_traffic_profile m pid = get m.traffic_profiles pid

unfoldable pub get_time_profile : AgentProfileManager → ℕ → Option AgentTimeProfile
get_time_profile m pid = get m.time_profiles pid

unfoldable pub get_all_risk_scores : AgentProfileManager → List AgentRiskScore
get_all_risk_scores m = map (λ e. e.1) m.risk_scores

unfoldable pub profile_count : AgentProfileManager → ℕ
profile_count m = length m.destination_profiles
