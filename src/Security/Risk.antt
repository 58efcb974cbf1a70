-- ===== src/Security/Risk.antt =====
-- The learning of a baseline and the risk score of an agent, in crates/security/src/lib.rs.
use omnisec.Prelude.{
  ℕ, ◌+◌, ◌-◌, ◌/◌, ◌%◌, ◌^◌, ◌*◌, min, String, Bool, true, false, ◌&&◌, Option, none, some, List,
  [], ◌∷◌, ◌++◌, leb, if◌then◌else◌,
}
use omnisec.Prelude.Texts.{concat}
use omnisec.Prelude.Decimal.{decimal}
use omnisec.Prelude.External.{DateTime, F64, FloatOps, F64Text, nanos_per_sec}
use omnisec.Anomaly.Types.{BaselineState, learning, training, established, is_established}

abbrev pub u32_most : ℕ
u32_most = 2 ^ 32 - 1

abbrev pub u32_word : ℕ → ℕ
u32_word n = n % 2 ^ 32

abbrev pub day : ℕ
day = 86_400 * nanos_per_sec

pub record BaselineLearning : Type 0 where
  pub pid : ℕ
  pub agent_name : String
  pub state : BaselineState
  pub learning_started : DateTime
  pub days_observed : ℕ
  pub samples_collected : ℕ
  pub required_days : ℕ
  pub required_samples : ℕ

unfoldable pub new_baseline : DateTime → ℕ → String → BaselineLearning
new_baseline now pid agent_name = record {
  pid = pid;
  agent_name = agent_name;
  state = learning;
  learning_started = now;
  days_observed = 0;
  samples_collected = 0;
  required_days = 7;
  required_samples = 1000;
}

-- The `match` on the state.
abbrev pub next_state : ℕ → ℕ → ℕ → ℕ → BaselineState → BaselineState
next_state days samples required_days required_samples learning =
    if leb required_days days && leb required_samples samples then training else learning
next_state days samples required_days required_samples training =
    if leb (u32_word (required_days + 1)) days then established else training
next_state days samples required_days required_samples established = established

abbrev pub same_state : BaselineState → BaselineState → Bool
same_state learning learning = true
same_state learning training = false
same_state learning established = false
same_state training learning = false
same_state training training = true
same_state training established = false
same_state established learning = false
same_state established training = false
same_state established established = true

-- The clock does not go back before the start.
unfoldable pub learn : DateTime → BaselineLearning → BaselineLearning × Option BaselineState
learn now b =
    let samples = u32_word (b.samples_collected + 1) in
    let days = u32_word ((now - b.learning_started) / day) in
    let state = next_state days samples b.required_days b.required_samples b.state in
    (
      record b { samples_collected = samples; days_observed = days; state = state },
      if same_state state b.state then none else some state,
    )

unfoldable pub reset_learning : DateTime → BaselineLearning → BaselineLearning
reset_learning now b = record b {
  state = learning;
  learning_started = now;
  days_observed = 0;
  samples_collected = 0;
}

unfoldable is_learning : BaselineLearning → Bool
is_learning b = same_state b.state learning

unfoldable is_training : BaselineLearning → Bool
is_training b = same_state b.state training

unfoldable pub should_generate_incidents : BaselineLearning → Bool
should_generate_incidents b = is_established b.state

pub data RiskLevel : Type 0 where
  normal suspicious high_risk critical : RiskLevel

pub record AgentRiskScore : Type 0 where
  pub pid : ℕ
  pub agent_name : String
  pub total_score : ℕ
  pub destination_score : ℕ
  pub traffic_score : ℕ
  pub time_score : ℕ
  pub behavior_score : ℕ
  pub reasons : List String
  pub risk_level : RiskLevel

unfoldable pub new_risk_score : ℕ → String → AgentRiskScore
new_risk_score pid agent_name = record {
  pid = pid;
  agent_name = agent_name;
  total_score = 0;
  destination_score = 0;
  traffic_score = 0;
  time_score = 0;
  behavior_score = 0;
  reasons = [];
  risk_level = normal;
}

-- `saturating_add`
abbrev pub add_most : ℕ → ℕ → ℕ
add_most a b = min (a + b) u32_most

abbrev pub level_of : ℕ → RiskLevel
level_of total =
    if leb total 20
    then normal
    else if leb total 50
    then suspicious
    else if leb total 80
    then high_risk
    else critical

abbrev pub total_of : AgentRiskScore → ℕ
total_of r =
    min
      (add_most (add_most (add_most r.destination_score r.traffic_score) r.time_score)
        r.behavior_score)
      100

unfoldable pub calculate : AgentRiskScore → AgentRiskScore
calculate r = record r { total_score = total_of r; risk_level = level_of (total_of r) }

unfoldable pub new_destination_found : ℕ → AgentRiskScore → AgentRiskScore
unfolding calculate
new_destination_found count r = calculate (record r {
  destination_score = add_most r.destination_score (min (u32_word (count * 15)) 40);
  reasons = r.reasons ++ concat (decimal count ∷ " new destination(s) found" ∷ []) ∷ [];
})

module _ (t : F64Text) where
  unfoldable pub traffic_spike_detected : F64 → AgentRiskScore → AgentRiskScore
  unfolding calculate
  traffic_spike_detected deviation r = calculate (record r {
    traffic_score = add_most r.traffic_score (min (u32_word (t.to_nat 32 deviation * 2)) 30);
    reasons =
        r.reasons
        ++ concat ("Traffic spike detected (" ∷ t.display deviation ∷ "x baseline)" ∷ []) ∷ [];
  })

  unfoldable pub outbound_spike_detected : F64 → AgentRiskScore → AgentRiskScore
  unfolding calculate
  outbound_spike_detected ratio r = calculate (record r {
    traffic_score = add_most r.traffic_score (min (u32_word (t.to_nat 32 ratio * 5)) 30);
    reasons =
        r.reasons ++ concat ("Outbound traffic spike (ratio: " ∷ t.display ratio ∷ ")" ∷ []) ∷ [];
  })

  unfoldable pub fingerprint_drift_detected : F64 → AgentRiskScore → AgentRiskScore
  unfolding calculate
  fingerprint_drift_detected drift_score r = calculate (record r {
    behavior_score = add_most r.behavior_score (min (u32_word (t.to_nat 32 drift_score * 2)) 40);
    reasons =
        r.reasons
        ++ concat ("Behavioral fingerprint drift detected (" ∷ t.fixed 1 drift_score ∷ "%)" ∷ [])
          ∷ [];
  })

unfoldable pub time_anomaly_detected : AgentRiskScore → AgentRiskScore
unfolding calculate
time_anomaly_detected r = calculate (record r {
  time_score = add_most r.time_score 20;
  reasons = r.reasons ++ "Activity at unusual hour" ∷ [];
})

pub record RiskScoreChangedPayload : Type 0 where
  pub pid : ℕ
  pub agent_name : String
  pub previous_score : ℕ
  pub new_score : ℕ
  pub risk_level : RiskLevel
  pub signals : List (String × F64)
  pub reasons : List String

unfoldable pub to_event_payload : FloatOps → AgentRiskScore → ℕ → RiskScoreChangedPayload
to_event_payload f r previous_score = record {
  pid = r.pid;
  agent_name = r.agent_name;
  previous_score = previous_score;
  new_score = r.total_score;
  risk_level = r.risk_level;
  signals =
      ("destination", f.of_nat r.destination_score)
      ∷ ("traffic", f.of_nat r.traffic_score)
      ∷ ("time", f.of_nat r.time_score)
      ∷ ("behavior", f.of_nat r.behavior_score)
      ∷ [];
  reasons = r.reasons;
}
