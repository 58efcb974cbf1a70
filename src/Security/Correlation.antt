-- ===== src/Security/Correlation.antt =====
-- `CorrelationEngine` of crates/security/src/correlation.rs. `now` is what `Utc::now` answers. The `max_by_key`
-- of the hours, where several are the commonest, depends on the order of a `HashMap`: here it is the last in
-- the order in which the hours first appear.
use mathlib.Core.List.{reverse}
use omnisec.Prelude.{
  ℕ, ◌-◌, ◌/◌, String, Bool, false, ◌&&◌, Option, none, some, List, [], ◌∷◌, ◌++◌, map, retain,
  find, length, drop, ltb, leb, ◌==◌, if◌then◌else◌,
}
use omnisec.Prelude.Texts.{concat}
use omnisec.Prelude.Decimal.{decimal}
use omnisec.Prelude.External.{DateTime, F64, FloatOps, F64Text, nanos_per_sec}
use omnisec.Security.Snapshots.{
  CorrelationType, individual_traffic_spike, global_traffic_spike, individual_outbound_spike,
  global_outbound_spike, risk_escalation, multi_agent_risk_escalation, CorrelationSeverity, info,
  medium, high, Json, string, whole, float, wholes, floats, CorrelationAlert, AgentActivitySnapshot,
  CorrelationEngine,
}

abbrev pub seconds : DateTime → String
seconds now = decimal (now / nanos_per_sec)

abbrev pub names_of : List AgentActivitySnapshot → List String
names_of agents = map (λ a. a.agent_name) agents

abbrev pub pids_of : List AgentActivitySnapshot → List ℕ
pids_of agents = map (λ a. a.pid) agents

-- An alert about a list of agents.
abbrev pub alert_of :
    DateTime
    → String
    → CorrelationType
    → String
    → List AgentActivitySnapshot
    → CorrelationSeverity
    → List (String × Json)
    → CorrelationAlert
alert_of now id kind description agents severity pattern = record {
  id = id;
  correlation_type = kind;
  description = description;
  affected_agents = names_of agents;
  affected_pids = pids_of agents;
  severity = severity;
  pattern = pattern;
  detected_at = now;
  resolved = false;
}

-- `{:02}` of an hour
abbrev pub two_digits : ℕ → String
two_digits n = if ltb n 10 then concat ("0" ∷ decimal n ∷ []) else decimal n

module _ (f : FloatOps) where
  unfoldable pub sum_rates : F64 → List F64 → F64
  sum_rates total [] = total
  sum_rates total (x ∷ xs) = sum_rates (f.add total x) xs

  unfoldable pub mean_rate : List F64 → F64
  unfolding sum_rates
  mean_rate xs = f.div (sum_rates (f.literal 0 1) xs) (f.of_nat (length xs))

  -- Three times the average, and above a floor.
  unfoldable pub stands_out : F64 → F64 → F64 → Bool
  stands_out avg floor rate = f.lt (f.mul avg (f.literal 30 1)) rate && f.lt floor rate

  -- `spiking_count as f64 / total_active as f64 > 0.7`
  unfoldable pub is_global : ℕ → ℕ → Bool
  is_global spiking total = f.lt (f.literal 7 1) (f.div (f.of_nat spiking) (f.of_nat total))

module _ (f : FloatOps) (t : F64Text) (now : DateTime) where
  unfoldable pub individual_traffic : F64 → AgentActivitySnapshot → CorrelationAlert
  individual_traffic avg a =
      alert_of now (concat ("indiv-traffic-" ∷ decimal a.pid ∷ "-" ∷ seconds now ∷ []))
        individual_traffic_spike
        (concat (
          "Individual traffic spike: "
          ∷ a.agent_name
          ∷ " traffic is "
          ∷ t.fixed 1 (f.div a.traffic_rate_in avg)
          ∷ "x the global average ("
          ∷ t.fixed 0 avg
          ∷ ")"
          ∷ []))
        (a ∷ []) medium
        (("type", string "individual_traffic_spike")
          ∷ ("agent_rate", float a.traffic_rate_in)
          ∷ ("global_avg", float avg)
          ∷ ("deviation", float (f.div a.traffic_rate_in avg))
          ∷ [])

  unfoldable pub detect_traffic_correlation : List AgentActivitySnapshot → List CorrelationAlert
  unfolding mean_rate stands_out is_global individual_traffic
  detect_traffic_correlation active =
      let avg = mean_rate f (map (λ a. a.traffic_rate_in) active) in
      let outliers = retain (λ a. stands_out f avg (f.literal 10_000 1) a.traffic_rate_in) active in
      if length outliers == 0
      then []
      else if is_global f (length outliers) (length active)
      then alert_of now (concat ("global-traffic-" ∷ seconds now ∷ [])) global_traffic_spike
          (concat (
            "Global traffic spike detected: "
            ∷ decimal (length outliers)
            ∷ "/"
            ∷ decimal (length active)
            ∷ " agents show elevated traffic (avg: "
            ∷ t.fixed 0 avg
            ∷ " bytes/min)"
            ∷ []))
          outliers info
          (("type", string "global_traffic_spike")
            ∷ ("spiking_count", whole (length outliers))
            ∷ ("total_active", whole (length active))
            ∷ ("avg_traffic_rate", float avg)
            ∷ ("outlier_rates", floats (map (λ a. a.traffic_rate_in) outliers))
            ∷ [])
        ∷ []
      else map (individual_traffic avg) outliers

  unfoldable pub individual_outbound : F64 → AgentActivitySnapshot → CorrelationAlert
  individual_outbound avg a =
      alert_of now (concat ("indiv-outbound-" ∷ decimal a.pid ∷ "-" ∷ seconds now ∷ []))
        individual_outbound_spike
        (concat (
          "Individual outbound spike: "
          ∷ a.agent_name
          ∷ " outbound "
          ∷ t.fixed 1 (f.div a.traffic_rate_out avg)
          ∷ "x global average"
          ∷ []))
        (a ∷ []) high
        (("type", string "individual_outbound_spike")
          ∷ ("agent_outbound", float a.traffic_rate_out)
          ∷ ("global_avg", float avg)
          ∷ [])

  unfoldable pub detect_outbound_correlation : List AgentActivitySnapshot → List CorrelationAlert
  unfolding mean_rate stands_out is_global individual_outbound
  detect_outbound_correlation active =
      let avg = mean_rate f (map (λ a. a.traffic_rate_out) active) in
      let outliers =
        retain (λ a. stands_out f avg (f.literal 50_000 1) a.traffic_rate_out) active in
      if f.lt avg (f.literal 1_000 1)
      then []
      else if length outliers == 0
      then []
      else if is_global f (length outliers) (length active)
      then alert_of now (concat ("global-outbound-" ∷ seconds now ∷ [])) global_outbound_spike
          (concat (
            "Global outbound spike: "
            ∷ decimal (length outliers)
            ∷ "/"
            ∷ decimal (length active)
            ∷ " agents show elevated outbound traffic"
            ∷ []))
          outliers info
          (("type", string "global_outbound_spike")
            ∷ ("spiking_count", whole (length outliers))
            ∷ ("total_active", whole (length active))
            ∷ ("avg_outbound", float avg)
            ∷ [])
        ∷ []
      else map (individual_outbound avg) outliers

-- The snapshot before the present one: `history.iter().rev().nth(1)`.
unfoldable pub snapshot_before : CorrelationEngine → Option (List AgentActivitySnapshot)
snapshot_before e = elim (drop 1 (reverse e.history)) [ [] ↦ none | x ∷ xs ↦ some x.1 ]

unfoldable pub previous_risk : List AgentActivitySnapshot → ℕ → ℕ
previous_risk last pid = elim (find (λ a. a.pid == pid) last) [ none ↦ 0 | some a ↦ a.risk_score ]

module _ (now : DateTime) where
  unfoldable pub escalation : ℕ → AgentActivitySnapshot → CorrelationAlert
  escalation previous a =
      alert_of now (concat ("risk-escalation-" ∷ decimal a.pid ∷ "-" ∷ seconds now ∷ []))
        risk_escalation
        (concat (
          "Risk escalation for "
          ∷ a.agent_name
          ∷ ": "
          ∷ decimal previous
          ∷ " -> "
          ∷ decimal a.risk_score
          ∷ " (cross-agent correlation)"
          ∷ []))
        (a ∷ []) high
        (("type", string "risk_escalation")
          ∷ ("previous_score", whole previous)
          ∷ ("current_score", whole a.risk_score)
          ∷ ("increase", whole (a.risk_score - previous))
          ∷ [])

  -- `for agent in active`
  unfoldable pub escalations :
      List AgentActivitySnapshot → List AgentActivitySnapshot → List CorrelationAlert
  unfolding previous_risk escalation
  escalations last [] = []
  escalations last (a ∷ as_) =
      let rest = escalations last as_ in
      if ltb 50 a.risk_score && leb (previous_risk last a.pid) 50
      then escalation (previous_risk last a.pid) a ∷ rest
      else rest

  unfoldable pub detect_risk_correlation :
      CorrelationEngine → List AgentActivitySnapshot → List CorrelationAlert
  unfolding snapshot_before escalations
  detect_risk_correlation e active =
      let high_risk = retain (λ a. ltb 50 a.risk_score) active in
      (if leb 3 (length high_risk)
        then alert_of now (concat ("multi-risk-" ∷ seconds now ∷ [])) multi_agent_risk_escalation
            (concat (
              "Multiple agents ("
              ∷ decimal (length high_risk)
              ∷ ") with elevated risk scores"
              ∷ []))
            high_risk high
            (("type", string "multi_agent_risk_escalation")
              ∷ ("high_risk_count", whole (length high_risk))
              ∷ ("risk_scores", wholes (map (λ a. a.risk_score) high_risk))
              ∷ [])
          ∷ []
        else [])
      ++ (elim (snapshot_before e) [ none ↦ [] | some last ↦ escalations last active ])
