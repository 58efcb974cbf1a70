-- ===== src/Decision/Builtin.antt =====
-- What the built-in policies of crates/decision/src/lib.rs decide, as a table.
use text.Mathlib.Text.{◌==◌ as str_eq}
use mathlib.Core.Bool.{xor}
use omnisec.Prelude.{
  ◌≡◌, refl, ◌∙◌, Bool, not, ◌&&◌, Option, none, some, List, [], ◌∷◌, arith, leb, if◌then◌else◌,
  find, retain, map,
}
use omnisec.Prelude.Sort.{sort_by}
use omnisec.Prelude.External.{Uuid, DateTime, FloatOps}
use omnisec.Decision.Types.{
  DecisionAction, allow, flag, block, restart, escalate, PolicyRule, VersionedPolicy,
  DecisionEngine, Request,
}
use omnisec.Decision.Matching.{matches_rule, present}
use omnisec.Decision.Engine.{
  is_new_dest, rule_matches, find_match, get_active_policies, evaluate, conclude, settle,
  rule_decision, default_decision, sorted_rules,
}
use omnisec.Decision.Defaults.{
  default_policies, allow_known_destinations, block_critical_risk, flag_new_destination,
  block_exfiltration, escalate_multi_risk, restart_on_fingerprint_drift,
}
use omnisec.Decision.Overrides.{NoOverride, find_override-none}

module _ (f : FloatOps) (q : Request) where
  abbrev pub is_spike : Bool
  is_spike =
      leb 51 q.risk_score
      && present q.anomaly_type (λ t. str_eq t "OutboundSpike")
      && present q.deviation (λ d. not (f.lt d (f.literal 20 0)))

  -- The decision table of the built-in policies.
  unfoldable pub builtin_action : DecisionAction
  unfolding is_new_dest
  builtin_action =
      if leb 81 q.risk_score
      then block
      else if is_spike
      then block
      else if leb 51 q.risk_score
          && present q.correlation_type (λ t. str_eq t "MultiAgentRiskEscalation")
      then escalate
      else if leb 41 q.risk_score && present q.anomaly_type (λ t. str_eq t "FingerprintDrift")
      then restart
      else if leb 21 q.risk_score && is_new_dest q
      then flag
      else allow

  by_priority : List PolicyRule
  by_priority =
      block_exfiltration f
      ∷ block_critical_risk
      ∷ escalate_multi_risk
      ∷ restart_on_fingerprint_drift
      ∷ flag_new_destination
      ∷ allow_known_destinations
      ∷ []

  abbrev action_of : Option PolicyRule → DecisionAction
  action_of none = allow
  action_of (some r) = r.action

  spike_rule : rule_matches f q (block_exfiltration f) ≡ is_spike
  unfolding rule_matches matches_rule
  spike_rule = ground arith

  critical_rule : rule_matches f q block_critical_risk ≡ leb 81 q.risk_score
  unfolding rule_matches matches_rule
  critical_rule = ground arith

  escalate_rule : rule_matches f q escalate_multi_risk ≡ (
      leb 51 q.risk_score && present q.correlation_type (λ t. str_eq t "MultiAgentRiskEscalation"))
  unfolding rule_matches matches_rule
  escalate_rule = ground arith

  drift_rule :
      rule_matches f q restart_on_fingerprint_drift
      ≡ (leb 41 q.risk_score && present q.anomaly_type (λ t. str_eq t "FingerprintDrift"))
  unfolding rule_matches matches_rule
  drift_rule = ground arith

  flag_rule :
      rule_matches f q flag_new_destination
      ≡ (leb 21 q.risk_score && leb q.risk_score 80 && is_new_dest q)
  unfolding rule_matches matches_rule xor
  flag_rule = ground arith

  by_priority_action : action_of (find (rule_matches f q) by_priority) ≡ builtin_action
  unfolding find by_priority builtin_action
  by_priority_action =
      ground (arith, spike_rule, critical_rule, escalate_rule, drift_rule, flag_rule)

  in_order :
      (id : Uuid) (now : DateTime) → map sorted_rules (default_policies f id now) ≡ by_priority ∷ []
  unfolding default_policies sorted_rules sort_by by_priority
  in_order id now = refl

  abbrev chosen_action : Option (VersionedPolicy × PolicyRule) → DecisionAction
  chosen_action none = allow
  chosen_action (some (p, r)) = r.action

  chosen_one :
      (p : VersionedPolicy) (o : Option PolicyRule)
      → chosen_action (elim o [ none ↦ none | some r ↦ some (p, r) ]) ≡ action_of o
  chosen_one p none = refl
  chosen_one p (some r) = refl

  module _ (e : DecisionEngine) (id : Uuid) (now : DateTime) where
    conclude_action :
        (m : Option (VersionedPolicy × PolicyRule))
        → NoOverride e q.pid now
        → (conclude f e q id now m).1.action ≡ chosen_action m
    unfolding conclude default_decision rule_decision settle
    conclude_action none h = refl
    conclude_action (some (p, r)) h =
        rw (find_override-none e now (rule_decision f q p r id now) h, settle)

    builtin_match :
        (pid : Uuid) (made : DateTime)
        → e.policies ≡ default_policies f pid made
        → chosen_action (find_match (rule_matches f q) (get_active_policies e))
          ≡ action_of (find (rule_matches f q) by_priority)
    unfolding get_active_policies retain default_policies find_match sort_by by_priority
    builtin_match pid made stock = rw stock (chosen_one _ (find (rule_matches f q) by_priority))

    -- With the built-in policies and no override in force, the action is that of the table, for
    -- every request.
    pub evaluate_builtin :
        (pid : Uuid) (made : DateTime)
        → e.policies ≡ default_policies f pid made
        → NoOverride e q.pid now
        → (evaluate f e q id now).1.action ≡ builtin_action
    unfolding evaluate
    evaluate_builtin pid made stock h =
        conclude_action (find_match (rule_matches f q) (get_active_policies e)) h
        ∙ builtin_match pid made stock
        ∙ by_priority_action
