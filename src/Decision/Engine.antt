-- ===== src/Decision/Engine.antt =====
-- `DecisionEngine` of crates/decision/src/lib.rs. A method that changes the engine returns the new
-- one; a fresh id and the time of the call are arguments.
use mathlib.Core.List.{reverse}
use text.Mathlib.Text.{◌==◌ as str_eq}
use omnisec.Prelude.{
  ℕ, ◌+◌, ◌%◌, ◌^◌, String, Bool, true, false, not, ◌&&◌, Option, none, some, List, [], ◌∷◌, ◌++◌,
  ltb, leb, ◌==◌, if◌then◌else◌, length, find, retain,
}
use omnisec.Prelude.Sort.{sort_by}
use omnisec.Prelude.Texts.{concat, contains}
use omnisec.Prelude.External.{Uuid, DateTime, Chrono, FloatOps}
use omnisec.Decision.Types.{
  DecisionAction, allow, flag, block, OverrideAction, approve, reject, override, temporary_allow,
  temporary_block, EnforcementContext, EnforcementDecision, PolicyRule, VersionedPolicy,
  HumanOverride, DecisionEngine, Request,
}
use omnisec.Decision.Matching.{matches_rule, calculate_confidence}

unfoldable pub new : DecisionEngine
new = record { policies = []; decisions = []; overrides = [] }

abbrev pub u32_mod : ℕ
u32_mod = 2 ^ 32

abbrev pub named : String → VersionedPolicy → Bool
named name p = str_eq p.name name

unfoldable pub add_policy : DecisionEngine → VersionedPolicy → DecisionEngine
add_policy e policy = elim (find (named policy.name) e.policies) [
  | none ↦ record e { policies = e.policies ++ policy ∷ [] }
  | some existing ↦ record e {
    policies =
        retain (λ p. not (named policy.name p)) e.policies
        ++ record policy { version = (existing.version + 1) % u32_mod } ∷ [];
  }
]

-- `max_by_key(|p| p.version)`: the last of the greatest
unfoldable pub latest : Option VersionedPolicy → List VersionedPolicy → Option VersionedPolicy
latest best [] = best
latest none (p ∷ ps) = latest (some p) ps
latest (some b) (p ∷ ps) = latest (some (if leb b.version p.version then p else b)) ps

unfoldable pub get_policy : DecisionEngine → String → Option VersionedPolicy
unfolding latest
get_policy e name = latest none (retain (named name) e.policies)

unfoldable pub get_active_policies : DecisionEngine → List VersionedPolicy
get_active_policies e = retain (λ p. p.enabled) e.policies

-- `b.priority.cmp(&a.priority)`: greater priorities come first
abbrev pub rule_le : PolicyRule → PolicyRule → Bool
rule_le a b = leb b.priority a.priority

unfoldable pub sorted_rules : VersionedPolicy → List PolicyRule
sorted_rules p = sort_by rule_le p.rules

-- The two nested loops of `evaluate`, up to the first rule that matches.
unfoldable pub find_match :
    (PolicyRule → Bool) → List VersionedPolicy → Option (VersionedPolicy × PolicyRule)
unfolding sorted_rules
find_match matches [] = none
find_match matches (p ∷ ps) = elim (find matches (sorted_rules p)) [
  | none ↦ find_match matches ps
  | some r ↦ some (p, r)
]

unfoldable pub context_of : Request → EnforcementContext
context_of q = record {
  risk_score = q.risk_score;
  risk_level = q.risk_level;
  anomaly_type = q.anomaly_type;
  anomaly_severity = q.anomaly_severity;
  deviation = q.deviation;
  correlation_type = q.correlation_type;
  destination = q.destination;
  process_name = q.process_name;
  file_path = q.file_path;
}

unfoldable pub is_new_dest : Request → Bool
is_new_dest q = elim q.destination [
  | none ↦ false
  | some dest ↦ not (contains q.known_destinations dest)
]

-- `!expires_at.map(|e| e > now).unwrap_or(true)`, negated
abbrev pub is_live : DateTime → HumanOverride → Bool
is_live now o = elim o.expires_at [ none ↦ true | some expiry ↦ ltb now expiry ]

-- The override targets a recorded decision, which is about the process.
unfoldable pub same_agent : DecisionEngine → ℕ → HumanOverride → Bool
same_agent e pid o = elim (find (λ d. d.id == o.decision_id) e.decisions) [
  | none ↦ false
  | some d ↦ d.pid == pid
]

unfoldable pub find_override :
    DecisionEngine → DateTime → EnforcementDecision → Option HumanOverride
unfolding same_agent
find_override e now decision =
    find (λ o. same_agent e decision.pid o && is_live now o) (reverse e.overrides)

unfoldable pub override_action : OverrideAction → DecisionAction
override_action approve = allow
override_action temporary_allow = allow
override_action reject = block
override_action temporary_block = block
override_action override = flag

unfoldable pub overridden : HumanOverride → EnforcementDecision → EnforcementDecision
unfolding override_action
overridden o d = record d {
  action = override_action o.action;
  reason = concat ("Decision overridden by " ∷ o.created_by ∷ ": " ∷ o.reason ∷ []);
}

abbrev pub record_decision : DecisionEngine → EnforcementDecision → DecisionEngine
record_decision e d = record e { decisions = e.decisions ++ d ∷ [] }

-- A decision that an override changes is returned and not recorded.
unfoldable pub settle :
    DecisionEngine → DateTime → EnforcementDecision → DecisionEngine × EnforcementDecision
unfolding overridden
settle e now d = elim (find_override e now d) [
  | none ↦ (record_decision e d, d)
  | some o ↦ (e, overridden o d)
]

module _ (f : FloatOps) where
  -- The decision that a matching rule makes, before any override.
  unfoldable pub rule_decision :
      Request → VersionedPolicy → PolicyRule → Uuid → DateTime → EnforcementDecision
  unfolding context_of
  rule_decision q policy rule id now = record {
    id = id;
    pid = q.pid;
    agent_name = q.agent_name;
    action = rule.action;
    reason = concat ("Policy '" ∷ policy.name ∷ "' rule '" ∷ rule.name ∷ "' matched" ∷ []);
    rule = rule.name;
    confidence = calculate_confidence f (context_of q);
    timestamp = now;
    policy_name = policy.name;
    policy_version = policy.version;
    context = context_of q;
  }

  unfoldable pub default_decision : Request → Uuid → DateTime → EnforcementDecision
  unfolding context_of
  default_decision q id now = record {
    id = id;
    pid = q.pid;
    agent_name = q.agent_name;
    action = allow;
    reason = "No matching policy — default allow";
    rule = "default_allow";
    confidence = f.literal 1 1;
    timestamp = now;
    policy_name = "default";
    policy_version = 0;
    context = context_of q;
  }

  unfoldable pub rule_matches : Request → PolicyRule → Bool
  unfolding context_of is_new_dest
  rule_matches q r = matches_rule f r.conditions (context_of q) (is_new_dest q)

  -- The rest of `evaluate` once the loops have found a rule, or none.
  unfoldable pub conclude :
      DecisionEngine
      → Request
      → Uuid
      → DateTime
      → Option (VersionedPolicy × PolicyRule)
      → DecisionEngine × EnforcementDecision
  conclude e q id now none =
      (record_decision e (default_decision q id now), default_decision q id now)
  conclude e q id now (some (policy, rule)) = settle e now (rule_decision q policy rule id now)

  unfoldable pub evaluate :
      DecisionEngine → Request → Uuid → DateTime → DecisionEngine × EnforcementDecision
  unfolding conclude
  evaluate e q id now = conclude e q id now (find_match (rule_matches q) (get_active_policies e))

module _ (c : Chrono) where
  unfoldable pub create_override :
      DecisionEngine
      → Uuid
      → OverrideAction
      → String
      → String
      → Option ℕ
      → Uuid
      → DateTime
      → DecisionEngine × HumanOverride
  create_override e decision_id action reason created_by expires_in_secs id now =
      let o : HumanOverride = record {
        id = id;
        decision_id = decision_id;
        action = action;
        reason = reason;
        expires_at = elim expires_in_secs [ none ↦ none | some s ↦ some (c.after now s) ];
        created_by = created_by;
        created_at = now;
      } in
      (record e { overrides = e.overrides ++ o ∷ [] }, o)

unfoldable pub get_decisions_for_agent : DecisionEngine → ℕ → List EnforcementDecision
get_decisions_for_agent e pid = retain (λ d. d.pid == pid) e.decisions

unfoldable pub decision_count : DecisionEngine → ℕ
decision_count e = length e.decisions
