-- ===== src/Security/Sharing.antt =====
-- The remaining detections of crates/security/src/correlation.rs, the analysis, and the queries. The
-- `HashMap`s are walked in the order in which their keys first came.
use omnisec.Prelude.{
  ℕ, ◌+◌, ◌-◌, String, Bool, true, false, not, ◌&&◌, Option, none, some, List, [], ◌∷◌, ◌++◌,
  retain, any, update_first, length, drop, ltb, leb, ◌==◌, if◌then◌else◌,
}
use text.Mathlib.Text.{◌==◌ as str_eq}
use omnisec.Prelude.Texts.{concat, replace_dots}
use omnisec.Prelude.Decimal.{decimal}
use omnisec.Prelude.Tables.{lookup}
use omnisec.Prelude.Tables.{put as put_text}
use omnisec.Prelude.Maps.{NatMap, get, put}
use omnisec.Prelude.External.{DateTime, FloatOps, F64Text}
use omnisec.Security.Snapshots.{
  shared_new_destination, global_time_pattern_shift, low, medium, string, whole, CorrelationAlert,
  AgentActivitySnapshot, CorrelationEngine, RiskDistribution,
}
use omnisec.Security.Correlation.{
  alert_of, seconds, two_digits, detect_traffic_correlation, detect_outbound_correlation,
  detect_risk_correlation, snapshot_before,
}

abbrev pub or_none : Option (List AgentActivitySnapshot) → List AgentActivitySnapshot
or_none none = []
or_none (some as_) = as_

-- `for dest in &agent.new_destinations`
unfoldable pub add_destinations :
    List (String × List AgentActivitySnapshot)
    → AgentActivitySnapshot
    → List String
    → List (String × List AgentActivitySnapshot)
add_destinations dests a [] = dests
add_destinations dests a (d ∷ ds) =
    add_destinations (put_text dests d (or_none (lookup dests d) ++ a ∷ [])) a ds

-- `for agent in active`
unfoldable pub collect_destinations :
    List (String × List AgentActivitySnapshot)
    → List AgentActivitySnapshot
    → List (String × List AgentActivitySnapshot)
unfolding add_destinations
collect_destinations dests [] = dests
collect_destinations dests (a ∷ as_) =
    collect_destinations (add_destinations dests a a.new_destinations) as_

-- `counts.entry(hour).or_insert(0) += 1`, agent by agent
abbrev pub or_zero : Option ℕ → ℕ
or_zero none = 0
or_zero (some n) = n

unfoldable pub count_hours : NatMap ℕ → List AgentActivitySnapshot → NatMap ℕ
count_hours counts [] = counts
count_hours counts (a ∷ as_) =
    count_hours (put counts a.active_hour (or_zero (get counts a.active_hour) + 1)) as_

-- `max_by_key` answers the last of the greatest.
unfoldable pub peak_hour : Option (ℕ × ℕ) → NatMap ℕ → Option ℕ
peak_hour none [] = none
peak_hour (some b) [] = some b.0
peak_hour none (e ∷ es) = peak_hour (some e) es
peak_hour (some b) (e ∷ es) = peak_hour (some (if leb b.1 e.1 then e else b)) es

-- `(current as i32 - last as i32).abs()`
abbrev pub hour_distance : ℕ → ℕ → ℕ
hour_distance a b = if leb a b then b - a else a - b

module _ (now : DateTime) where
  unfoldable pub shared_alerts : List (String × List AgentActivitySnapshot) → List CorrelationAlert
  shared_alerts [] = []
  shared_alerts (e ∷ es) =
      let rest = shared_alerts es in
      if leb 2 (length e.1)
      then alert_of now (concat ("shared-dest-" ∷ replace_dots e.0 ∷ "-" ∷ seconds now ∷ []))
          shared_new_destination
          (concat (
            "Multiple agents ("
            ∷ decimal (length e.1)
            ∷ ") connecting to same new destination: "
            ∷ e.0
            ∷ []))
          e.1 medium
          (("type", string "shared_new_destination")
            ∷ ("destination", string e.0)
            ∷ ("agent_count", whole (length e.1))
            ∷ [])
        ∷ rest
      else rest

  unfoldable pub detect_shared_destinations : List AgentActivitySnapshot → List CorrelationAlert
  unfolding collect_destinations shared_alerts
  detect_shared_destinations active = shared_alerts (collect_destinations [] active)

  unfoldable pub time_shift : List AgentActivitySnapshot → ℕ → ℕ → List CorrelationAlert
  time_shift active current last =
      if not (current == last) && leb 6 (hour_distance current last)
      then alert_of now (concat ("time-shift-" ∷ seconds now ∷ [])) global_time_pattern_shift
          (concat (
            "Global activity time shift: peak hour changed from "
            ∷ two_digits last
            ∷ ":00 to "
            ∷ two_digits current
            ∷ ":00 ("
            ∷ decimal (length active)
            ∷ " agents)"
            ∷ []))
          active low
          (("type", string "global_time_shift")
            ∷ ("previous_peak_hour", whole last)
            ∷ ("current_peak_hour", whole current)
            ∷ ("hour_diff", whole (hour_distance current last))
            ∷ ("agent_count", whole (length active))
            ∷ [])
        ∷ []
      else []

  unfoldable pub detect_time_anomaly_correlation :
      CorrelationEngine → List AgentActivitySnapshot → List CorrelationAlert
  unfolding snapshot_before count_hours peak_hour time_shift
  detect_time_anomaly_correlation e active = elim (snapshot_before e) [
    | none ↦ []
    | some before ↦ elim (peak_hour none (count_hours [] active)) [
      | none ↦ []
      | some current ↦ elim (peak_hour none (count_hours [] before)) [
        | none ↦ []
        | some last ↦ time_shift active current last
      ]
    ]
  ]

  -- The history gets the snapshots and loses its oldest entry when it is too long.
  unfoldable pub remember : CorrelationEngine → List AgentActivitySnapshot → CorrelationEngine
  remember e snapshots =
      let history = e.history ++ (now, snapshots) ∷ [] in
      record e { history = if ltb e.max_history (length history) then drop 1 history else history }

module _ (f : FloatOps) (t : F64Text) (now : DateTime) where
  unfoldable pub correlations :
      CorrelationEngine → List AgentActivitySnapshot → List CorrelationAlert
  unfolding detect_traffic_correlation detect_outbound_correlation detect_risk_correlation
      detect_shared_destinations detect_time_anomaly_correlation
  correlations e active =
      detect_traffic_correlation f t now active
      ++ detect_outbound_correlation f t now active
      ++ detect_risk_correlation now e active
      ++ detect_shared_destinations now active
      ++ detect_time_anomaly_correlation now e active

  unfoldable pub analyze :
      CorrelationEngine → List AgentActivitySnapshot → CorrelationEngine × List CorrelationAlert
  unfolding remember correlations
  analyze e snapshots =
      let e' = remember now e snapshots in
      let active = retain (λ a. a.is_active) snapshots in
      if ltb (length snapshots) 2
      then (e', [])
      else if leb 2 (length active)
      then (record e' { alerts = e'.alerts ++ correlations e' active }, correlations e' active)
      else (e', [])

unfoldable pub get_alerts : CorrelationEngine → List CorrelationAlert
get_alerts e = e.alerts

unfoldable pub get_unresolved_alerts : CorrelationEngine → List CorrelationAlert
get_unresolved_alerts e = retain (λ a. not a.resolved) e.alerts

unfoldable pub resolve_alert : CorrelationEngine → String → CorrelationEngine × Bool
resolve_alert e alert_id =
    if any (λ a. str_eq a.id alert_id) e.alerts
    then (
      record e {
        alerts =
            update_first (λ a. str_eq a.id alert_id) (λ a. record a { resolved = true }) e.alerts;
      },
      true,
    )
    else (e, false)

unfoldable pub alert_count : CorrelationEngine → ℕ
alert_count e = length e.alerts

abbrev pub count_risk : RiskDistribution → ℕ → RiskDistribution
count_risk dist risk =
    if leb risk 20
    then record dist { normal = dist.normal + 1 }
    else if leb risk 50
    then record dist { suspicious = dist.suspicious + 1 }
    else if leb risk 80
    then record dist { high_risk = dist.high_risk + 1 }
    else record dist { critical_risk = dist.critical_risk + 1 }

unfoldable pub count_risks : RiskDistribution → List AgentActivitySnapshot → RiskDistribution
count_risks dist [] = dist
count_risks dist (a ∷ as_) = count_risks (count_risk dist a.risk_score) as_

unfoldable pub get_agent_count_by_risk_level : List AgentActivitySnapshot → RiskDistribution
unfolding count_risks
get_agent_count_by_risk_level snapshots =
    count_risks (record { normal = 0; suspicious = 0; high_risk = 0; critical_risk = 0 }) snapshots
