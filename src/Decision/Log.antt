-- ===== src/Decision/Log.antt =====
-- What an evaluation of crates/decision/src/lib.rs says of its request, and what it leaves in the
-- engine.
use omnisec.Prelude.{
  ◌≡◌, refl, ◌⊎◌, inl, inr, Option, none, some, [], ◌∷◌, ◌++◌, arith, Option-cases,
}
use omnisec.Prelude.External.{Uuid, DateTime, FloatOps}
use omnisec.Decision.Types.{
  VersionedPolicy, PolicyRule, DecisionEngine, EnforcementDecision, Request,
}
use omnisec.Decision.Engine.{
  context_of, find_match, get_active_policies, rule_matches, rule_decision, default_decision,
  overridden, find_override, settle, conclude, evaluate,
}

-- The answer is about the request, under the id and the time given.
pub record IsAbout (q : Request) (id : Uuid) (now : DateTime) (d : EnforcementDecision)
    : Type 0 where
  pub same_id : d.id ≡ id
  pub same_pid : d.pid ≡ q.pid
  pub same_agent : d.agent_name ≡ q.agent_name
  pub same_time : d.timestamp ≡ now
  pub same_context : d.context ≡ context_of q

module _ (f : FloatOps) (e : DecisionEngine) (q : Request) (id : Uuid) (now : DateTime) where
  -- The engine afterwards: the answer is appended to the log, or nothing changes.
  abbrev pub Logged : DecisionEngine × EnforcementDecision → Type 0
  Logged (e', d) = (e' ≡ e) ⊎ (e' ≡ record e { decisions = e.decisions ++ d ∷ [] })

  conclude-Logged :
      (m : Option (VersionedPolicy × PolicyRule))
      → IsAbout q id now (conclude f e q id now m).1 × Logged (conclude f e q id now m)
  unfolding conclude default_decision rule_decision overridden settle
  conclude-Logged none = (ground arith, inr refl)
  conclude-Logged (some (p, r)) =
      elim (Option-cases (find_override e now (rule_decision f q p r id now))) [
        | inl h ↦
            rw (h, settle)
              (
                record {
                  same_id = refl;
                  same_pid = refl;
                  same_agent = refl;
                  same_time = refl;
                  same_context = refl;
                },
                inr refl,
              )
        | inr (o, h) ↦
            rw (h, settle)
              (
                record {
                  same_id = refl;
                  same_pid = refl;
                  same_agent = refl;
                  same_time = refl;
                  same_context = refl;
                },
                inl refl,
              )
      ]

  -- Every answer carries the request, the fresh id and the time; and an evaluation changes nothing
  -- in the engine but the log, which it leaves as it was or extends by the answer.
  pub evaluate-Logged : IsAbout q id now (evaluate f e q id now).1 × Logged (evaluate f e q id now)
  unfolding evaluate
  evaluate-Logged = conclude-Logged (find_match (rule_matches f q) (get_active_policies e))
