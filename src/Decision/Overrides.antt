-- ===== src/Decision/Overrides.antt =====
-- Human overrides of crates/decision/src/lib.rs: which one `evaluate` applies, to what, and when.
use omnisec.Prelude.{
  ℕ, ◌≡◌, refl, ap, ◌∙◌, ◌⊎◌, inl, inr, Bool, true, false, ◌&&◌, Option, none, some, List, ◌∷◌,
  ◌++◌, All, All-reverse, find-none, find-reverse_last,
}
use omnisec.Prelude.External.{Uuid, DateTime, FloatOps}
use omnisec.Decision.Types.{
  PolicyRule, VersionedPolicy, HumanOverride, DecisionEngine, EnforcementDecision, Request,
}
use omnisec.Decision.Engine.{
  find_match, get_active_policies, rule_matches, rule_decision, default_decision, is_live,
  same_agent, find_override, overridden, record_decision, settle, conclude, evaluate,
}
use omnisec.Decision.Priority.{NoRule, Chosen, Search, find_match-Search, find_match-eq_none}

-- The override is in force for the process.
abbrev pub applies_to : DecisionEngine → ℕ → DateTime → HumanOverride → Bool
applies_to e pid now o = same_agent e pid o && is_live now o

-- No recorded override is in force for the process.
abbrev pub NoOverride : DecisionEngine → ℕ → DateTime → Type 0
NoOverride e pid now = All (λ o. applies_to e pid now o ≡ false) e.overrides

-- The latest override in force for the process, if it is the last that applies.
pub record IsLatest (e : DecisionEngine) (pid : ℕ) (now : DateTime) (o : HumanOverride)
    : Type 0 where
  pub before : List HumanOverride
  pub after : List HumanOverride
  pub split : e.overrides ≡ before ++ o ∷ after
  pub applies : applies_to e pid now o ≡ true
  pub none_after : All (λ p. applies_to e pid now p ≡ false) after

pub find_override-none :
    (e : DecisionEngine) (now : DateTime) (d : EnforcementDecision)
    → NoOverride e d.pid now
    → find_override e now d ≡ none
unfolding find_override
find_override-none e now d h =
    find-none _ _ (All-reverse (λ o. applies_to e d.pid now o ≡ false) e.overrides h)

pub find_override_latest :
    (e : DecisionEngine) (now : DateTime) (d : EnforcementDecision) (o : HumanOverride)
    → IsLatest e d.pid now o
    → find_override e now d ≡ some o
unfolding find_override
find_override_latest e now d o l = rw l.split (
    find-reverse_last (λ p. same_agent e d.pid p && is_live now p) l.before l.after o l.applies
      l.none_after)

module _ (f : FloatOps) (e : DecisionEngine) (q : Request) (id : Uuid) (now : DateTime) where
  -- What `evaluate` answers with no override in force: the decision of the chosen rule, or the
  -- default one if no rule of an active policy matches.
  abbrev pub RuleOutcome : EnforcementDecision → Type 0
  RuleOutcome d =
      (All (NoRule (rule_matches f q)) (get_active_policies e) × (d ≡ default_decision f q id now))
      ⊎ ((p : VersionedPolicy) × (r : PolicyRule) × Chosen (rule_matches f q)
            (get_active_policies e) p r
          × (d ≡ rule_decision f q p r id now))

  conclude-RuleOutcome :
      (o : Option (VersionedPolicy × PolicyRule))
      → Search (rule_matches f q) (get_active_policies e) o
      → NoOverride e q.pid now
      → let (e', d) = conclude f e q id now o in (e' ≡ record_decision e d) × RuleOutcome d
  unfolding conclude settle rule_decision
  conclude-RuleOutcome none s h = (refl, inl (s, refl))
  conclude-RuleOutcome (some (p, r)) s h =
      rw (find_override-none e now (rule_decision f q p r id now) h, settle)
        (refl, inr (p, r, s, refl))

  -- With no override in force, the decision is that of the first rule of the greatest priority, in
  -- the first active policy that has a rule which matches, or the default `Allow` where no rule of
  -- an active policy matches; and it is appended to the log.
  pub evaluate_by_rule :
      NoOverride e q.pid now
      → let (e', d) = evaluate f e q id now in (e' ≡ record_decision e d) × RuleOutcome d
  unfolding evaluate
  evaluate_by_rule h =
      conclude-RuleOutcome (find_match (rule_matches f q) (get_active_policies e))
        (find_match-Search (rule_matches f q) (get_active_policies e)) h

  conclude-overridden :
      (m : Option (VersionedPolicy × PolicyRule)) (o : HumanOverride)
      → Search (rule_matches f q) (get_active_policies e) m
      → IsLatest e q.pid now o
      → ¬ All (NoRule (rule_matches f q)) (get_active_policies e)
      → (p : VersionedPolicy) × (r : PolicyRule) × Chosen
          (rule_matches f q)
          (get_active_policies e)
          p
          r
        × (conclude f e q id now m ≡ (e, overridden o (rule_decision f q p r id now)))
  unfolding conclude settle rule_decision
  conclude-overridden none o s l some_rule = absurd (some_rule s)
  conclude-overridden (some (p, r)) o s l some_rule =
      (p, r, s, rw (find_override_latest e now (rule_decision f q p r id now) o l, settle))

  -- Where a rule matches and an override is in force, the latest such override replaces the action
  -- and the reason of the chosen rule's decision, and nothing is recorded.
  pub evaluate-overridden :
      (o : HumanOverride)
      → IsLatest e q.pid now o
      → ¬ All (NoRule (rule_matches f q)) (get_active_policies e)
      → (p : VersionedPolicy) × (r : PolicyRule) × Chosen
          (rule_matches f q)
          (get_active_policies e)
          p
          r
        × (evaluate f e q id now ≡ (e, overridden o (rule_decision f q p r id now)))
  unfolding evaluate
  evaluate-overridden o =
      conclude-overridden (find_match (rule_matches f q) (get_active_policies e)) o
        (find_match-Search (rule_matches f q) (get_active_policies e))

  -- An override, whatever it says, has no effect on a process of which no rule matches.
  evaluate_unmatched :
      All (NoRule (rule_matches f q)) (get_active_policies e)
      → evaluate f e q id now
        ≡ (record_decision e (default_decision f q id now), default_decision f q id now)
  unfolding evaluate
  evaluate_unmatched h =
      ap (conclude f e q id now) (find_match-eq_none (rule_matches f q) (get_active_policies e) h)
      ∙ unfold conclude in refl
