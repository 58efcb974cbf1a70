-- ===== src/Tests/DecisionExamples.antt =====
-- Examples for the decision engine: rules, policies and the log.
use omnisec.Prelude.{◌≡◌, refl, [], true, ◌↔◌}
use omnisec.Decision.Types.{block, DecisionEngine}
use omnisec.Decision.Matching.{matches_rule}
use omnisec.Decision.Engine.{evaluate, record_decision}
use omnisec.Decision.Defaults.{default_policies, block_critical_risk}
use omnisec.Decision.Conditions.{Matches, matches_rule_iff}
use omnisec.Decision.Builtin.{builtin_action, evaluate_builtin}
use omnisec.Decision.Overrides.{RuleOutcome, evaluate_by_rule}
use omnisec.Decision.Log.{IsAbout, Logged, evaluate-Logged}
use omnisec.Tests.Fixtures.{thousandths, spike, context, engine}

abbrev stock : DecisionEngine
stock = record { policies = default_policies thousandths 1 0; decisions = []; overrides = [] }

evaluate_builtin_example :
    (evaluate thousandths stock spike 2 10).1.action ≡ builtin_action thousandths spike
evaluate_builtin_example = evaluate_builtin thousandths spike stock 2 10 1 0 refl tt

spike_is_blocked : builtin_action thousandths spike ≡ block
unfolding builtin_action
spike_is_blocked = refl

evaluate_by_rule_example :
    let (e', d) = evaluate thousandths engine spike 2 10 in
    (e' ≡ record_decision engine d) × RuleOutcome thousandths engine spike 2 10 d
evaluate_by_rule_example = evaluate_by_rule thousandths engine spike 2 10 tt

matches_rule_iff_example :
    (matches_rule thousandths block_critical_risk.conditions context true ≡ true)
    ↔ Matches thousandths block_critical_risk.conditions context true
matches_rule_iff_example = matches_rule_iff thousandths block_critical_risk.conditions context true

evaluate-Logged_example :
    IsAbout spike 2 10 (evaluate thousandths engine spike 2 10).1
    × Logged thousandths engine spike 2 10 (evaluate thousandths engine spike 2 10)
evaluate-Logged_example = evaluate-Logged thousandths engine spike 2 10
