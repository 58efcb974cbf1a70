-- ===== src/Decision/Expiry.antt =====
-- `create_override` of crates/decision/src/lib.rs, and the evaluations that follow it.
use mathlib.Core.List.{reverse-append}
use omnisec.Prelude.{
  ℕ, ◌+◌, ◌*◌, ◌^◌, ◌<◌, ◌≤◌, String, ◌≡◌, refl, true, false, Option, none, some, [], ◌∷◌, arith,
  All, All-imp, find, find-none, ◌==◌, ==_iff, Option-cases, inl, inr, ◌≢◌,
}
use omnisec.Prelude.External.{Uuid, DateTime, Chrono, FloatOps, nanos_per_sec}
use omnisec.Decision.Types.{
  OverrideAction, PolicyRule, VersionedPolicy, HumanOverride, DecisionEngine, EnforcementDecision,
  Request,
}
use omnisec.Decision.Engine.{
  find_match, get_active_policies, rule_matches, rule_decision, is_live, same_agent, find_override,
  overridden, settle, conclude, evaluate, create_override,
}
use omnisec.Decision.Priority.{NoRule, Chosen}
use omnisec.Decision.Overrides.{applies_to, IsLatest, evaluate-overridden}

-- The process of the recorded decision that the id names, if there is one.
abbrev pub target_pid : DecisionEngine → Uuid → Option ℕ
target_pid e decision_id = elim (find (λ d. d.id == decision_id) e.decisions) [
  | none ↦ none
  | some d ↦ some d.pid
]

module _ (c : Chrono) (f : FloatOps) (e : DecisionEngine) (decision_id : Uuid)
    (action : OverrideAction) (reason created_by : String) (expires : Option ℕ) (oid : Uuid)
    (now : DateTime) where
  -- The engine with the new override, and the override.
  abbrev pub after : DecisionEngine
  after = (create_override c e decision_id action reason created_by expires oid now).0

  abbrev pub added : HumanOverride
  added = (create_override c e decision_id action reason created_by expires oid now).1

  find_override-ignored :
      (later : DateTime) (d : EnforcementDecision)
      → applies_to e d.pid later added ≡ false
      → find_override after later d ≡ find_override e later d
  unfolding find_override create_override same_agent find
  find_override-ignored later d h = rw (reverse-append e.overrides (added ∷ []), find, h)

  settle-ignored :
      (later : DateTime) (d : EnforcementDecision)
      → applies_to e d.pid later added ≡ false
      → (settle after later d).1 ≡ (settle e later d).1
  unfolding settle
  settle-ignored later d h = ground (arith, find_override-ignored later d h)

  conclude-ignored :
      (q : Request) (id : Uuid) (later : DateTime) (m : Option (VersionedPolicy × PolicyRule))
      → applies_to e q.pid later added ≡ false
      → (conclude f after q id later m).1 ≡ (conclude f e q id later m).1
  unfolding conclude rule_decision
  conclude-ignored q id later none h = refl
  conclude-ignored q id later (some (p, r)) h =
      settle-ignored later (rule_decision f q p r id later) h

  evaluate-ignored :
      (q : Request) (id : Uuid) (later : DateTime)
      → applies_to e q.pid later added ≡ false
      → (evaluate f after q id later).1 ≡ (evaluate f e q id later).1
  unfolding evaluate create_override get_active_policies
  evaluate-ignored q id later h =
      conclude-ignored q id later (find_match (rule_matches f q) (get_active_policies e)) h

  not_applies_elsewhere :
      (pid : ℕ) (later : DateTime)
      → target_pid e decision_id ≢ some pid
      → applies_to e pid later added ≡ false
  unfolding create_override same_agent
  not_applies_elsewhere pid later h =
      elim (Option-cases (find (λ d. d.id == decision_id) e.decisions)) [
        | inl lost ↦ ground arith
        | inr (d, found) ↦ ground (arith, ==_iff d.pid pid)
      ]

  not_applies_expired :
      (pid : ℕ) (later : DateTime) (s : ℕ)
      → expires ≡ some s
      → c.after now s ≤ later
      → applies_to e pid later added ≡ false
  unfolding create_override
  not_applies_expired pid later s h late = ground arith

  -- A new override changes no answer about any other process than that of the recorded decision
  -- which it names, and none at all if no recorded decision has that id.
  pub create_override_elsewhere :
      (q : Request) (id : Uuid) (later : DateTime)
      → target_pid e decision_id ≢ some q.pid
      → (evaluate f after q id later).1 ≡ (evaluate f e q id later).1
  create_override_elsewhere q id later h =
      evaluate-ignored q id later (not_applies_elsewhere q.pid later h)

  -- When it has expired, a new override changes no answer.
  pub create_override_expired :
      (q : Request) (id : Uuid) (later : DateTime) (s : ℕ)
      → expires ≡ some s
      → now < 2 ^ 63
      → s < 2 ^ 32
      → now + s * nanos_per_sec ≤ later
      → (evaluate f after q id later).1 ≡ (evaluate f e q id later).1
  create_override_expired q id later s h n k late =
      evaluate-ignored q id later
        (not_applies_expired q.pid later s h (omega (arith, c.after_exact now s n k)))

  unknown_target :
      (pid : ℕ) → All (λ d. d.id ≢ decision_id) e.decisions → target_pid e decision_id ≢ some pid
  unknown_target pid fresh =
      rw
        (
          target_pid,
          find-none (λ d. d.id == decision_id) e.decisions
              (All-imp (λ d ne. ground arith) e.decisions fresh),
        )
        (λ h. cc)

  added-IsLatest :
      (later : DateTime) (d : EnforcementDecision)
      → find (λ x. x.id == decision_id) e.decisions ≡ some d
      → is_live later added ≡ true
      → IsLatest after d.pid later added
  unfolding create_override same_agent find
  added-IsLatest later d found live = record {
    before = e.overrides;
    after = [];
    split = refl;
    applies = rw (found, (==_iff d.pid d.pid).1 refl) live;
    none_after = tt;
  }

  added_live :
      (later : DateTime)
      → ((s : ℕ) → expires ≡ some s → later < c.after now s)
      → is_live later added ≡ true
  unfolding create_override
  added_live later h = elim (Option-cases expires) [
    | inl e ↦ ground arith
    | inr (s, e) ↦ ground (arith, h s)
  ]

  -- From then on, and until it expires, a new override of a recorded decision decides each
  -- evaluation of that decision's process for which a rule of an active policy matches: the answer
  -- is the chosen rule's, with the action and the reason of the new override.
  pub create_override_applies :
      (q : Request) (id : Uuid) (later : DateTime) (d : EnforcementDecision)
      → find (λ x. x.id == decision_id) e.decisions ≡ some d
      → q.pid ≡ d.pid
      → ((s : ℕ) → expires ≡ some s → later < c.after now s)
      → ¬ All (NoRule (rule_matches f q)) (get_active_policies e)
      → (p : VersionedPolicy) × (r : PolicyRule) × Chosen
          (rule_matches f q)
          (get_active_policies e)
          p
          r
        × (evaluate f after q id later ≡ (after, overridden added (rule_decision f q p r id later)))
  unfolding create_override get_active_policies
  create_override_applies q id later d found same unexpired some_rule =
      evaluate-overridden f after q id later added
        (rw same (added-IsLatest later d found (added_live later unexpired))) some_rule

-- An override changes an answer and the answer is not recorded; so an override of such an answer,
-- by its id, which no recorded decision has, changes no later answer.
pub override_of_overridden :
    (c : Chrono) (f : FloatOps) (e : DecisionEngine) (q : Request) (id : Uuid) (now : DateTime)
    (o : HumanOverride) (action : OverrideAction) (reason created_by : String) (expires : Option ℕ)
    (oid : Uuid) (created : DateTime) (q' : Request) (id' : Uuid) (later : DateTime)
    → IsLatest e q.pid now o
    → ¬ All (NoRule (rule_matches f q)) (get_active_policies e)
    → All (λ d. d.id ≢ id) e.decisions
    → let (e', answer) = evaluate f e q id now in
      (evaluate f
        (create_override c e' answer.id action reason created_by expires oid created).0
        q'
        id'
        later).1
      ≡ (evaluate f e' q' id' later).1
unfolding overridden rule_decision
override_of_overridden c f e q id now o action reason created_by expires oid created q' id' later
      latest some_rule fresh =
    let (p, r, chosen, result) = evaluate-overridden f e q id now o latest some_rule in
    rw result (
      create_override_elsewhere c f e id action reason created_by expires oid created q' id' later
        (unknown_target c f e id action reason created_by expires oid created q'.pid fresh))
