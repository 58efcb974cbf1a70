-- ===== src/Tests/OverrideExamples.antt =====
-- Examples for human overrides.
use omnisec.Prelude.{◌≡◌, refl, some, none, [], arith, find, retain}
use omnisec.Decision.Types.{VersionedPolicy, PolicyRule, temporary_block, DecisionEngine}
use omnisec.Decision.Matching.{matches_rule}
use omnisec.Decision.Engine.{
  evaluate, get_active_policies, rule_matches, rule_decision, overridden, create_override,
  same_agent,
}
use omnisec.Decision.Priority.{NoRule, Chosen}
use omnisec.Prelude.{All}
use omnisec.Decision.Overrides.{IsLatest, evaluate-overridden}
use omnisec.Decision.Expiry.{
  create_override_applies, create_override_expired, create_override_elsewhere,
  override_of_overridden,
}
use omnisec.Tests.Fixtures.{exact_clock, thousandths, spike, decision, engine, excuse, excused}

abbrev RuleForSpike : DecisionEngine → Type 0
RuleForSpike e = ¬ All (NoRule (rule_matches thousandths spike)) (get_active_policies e)

a_rule_matches : RuleForSpike engine
unfolding rule_matches matches_rule get_active_policies retain
a_rule_matches h = cc (h.0.0)

a_rule_matches_excused : RuleForSpike excused
unfolding rule_matches matches_rule get_active_policies retain
a_rule_matches_excused h = cc (h.0.0)

excuse-IsLatest : IsLatest excused 7 10 excuse
unfolding same_agent find
excuse-IsLatest = record { before = []; after = []; split = refl; applies = refl; none_after = tt }

evaluate-overridden_example :
    (p : VersionedPolicy) × (r : PolicyRule) × Chosen
      (rule_matches thousandths spike)
      (get_active_policies excused)
      p
      r
    × (evaluate thousandths excused spike 2 10
        ≡ (excused, overridden excuse (rule_decision thousandths spike p r 2 10)))
evaluate-overridden_example =
    evaluate-overridden thousandths excused spike 2 10 excuse excuse-IsLatest a_rule_matches_excused

abbrev after_block : DecisionEngine
after_block = (create_override exact_clock engine 100 temporary_block "stop" "admin" (some 5) 9 0).0

create_override_applies_example :
    (p : VersionedPolicy) × (r : PolicyRule) × Chosen
      (rule_matches thousandths spike)
      (get_active_policies engine)
      p
      r
    × (evaluate thousandths after_block spike 2 4_000_000_000 ≡ (
      after_block,
      overridden
          (create_override exact_clock engine 100 temporary_block "stop" "admin" (some 5) 9 0).1
          (rule_decision thousandths spike p r 2 4_000_000_000),
    ))
unfolding find
create_override_applies_example =
    create_override_applies exact_clock thousandths engine 100 temporary_block "stop" "admin"
      (some 5) 9 0 spike 2 4_000_000_000 decision refl refl (λ s e. ground arith) a_rule_matches

create_override_expired_example :
    (evaluate thousandths after_block spike 2 6_000_000_000).1
    ≡ (evaluate thousandths engine spike 2 6_000_000_000).1
create_override_expired_example =
    create_override_expired exact_clock thousandths engine 100 temporary_block "stop" "admin"
      (some 5) 9 0 spike 2 6_000_000_000 5 refl (omega arith) (omega arith) (omega arith)

create_override_elsewhere_example :
    (evaluate thousandths after_block (record spike { pid = 8 }) 2 10).1
    ≡ (evaluate thousandths engine (record spike { pid = 8 }) 2 10).1
unfolding find
create_override_elsewhere_example =
    create_override_elsewhere exact_clock thousandths engine 100 temporary_block "stop" "admin"
      (some 5) 9 0 (record spike { pid = 8 }) 2 10 (λ h. ground arith)

override_of_overridden_example :
    let (e', answer) = evaluate thousandths excused spike 2 10 in
    (evaluate thousandths
      (create_override exact_clock e' answer.id temporary_block "stop" "admin" none 10 20).0
      spike
      3
      30).1
    ≡ (evaluate thousandths e' spike 3 30).1
override_of_overridden_example =
    override_of_overridden exact_clock thousandths excused spike 2 10 excuse temporary_block "stop"
      "admin" none 10 20 spike 3 30 excuse-IsLatest a_rule_matches_excused ((λ h. omega arith), tt)
