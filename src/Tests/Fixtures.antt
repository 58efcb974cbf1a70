-- ===== src/Tests/Fixtures.antt =====
-- The values that the examples share: an exact clock, fixed-point arithmetic in place of f64, and
-- the records that the examples start from.
use omnisec.Prelude.{
  ◌+◌, ◌-◌, ◌*◌, ◌/◌, ◌^◌, refl, ltb, leb, if◌then◌else◌, none, some, [], ◌∷◌, true,
}
use omnisec.Prelude.External.{Chrono, FloatOps, nanos_per_sec}
use omnisec.Decision.Types.{
  flag, block, PolicyRule, VersionedPolicy, DecisionEngine, EnforcementDecision, EnforcementContext,
  Request, HumanOverride, temporary_allow,
}
use omnisec.Decision.Defaults.{no_conditions}

abbrev pub exact_clock : Chrono
exact_clock = record { after = λ t s. t + s * nanos_per_sec; after_exact = λ t s h k. refl }

-- Thousandths.
abbrev pub thousandths : FloatOps
thousandths = record {
  add = λ a b. a + b;
  sub = λ a b. a - b;
  mul = λ a b. a * b / 1000;
  div = λ a b. a * 1000 / b;
  f64_min = λ a b. if ltb a b then a else b;
  abs = λ a. a;
  sqrt = λ a. a / 2 + 500;
  lt = ltb;
  le = leb;
  of_nat = λ n. n * 1000;
  literal = λ n d. n * 1000 / 10 ^ d;
  powi = λ x n. if ltb 0 n then x ^ n / 1000 ^ (n - 1) else 1000;
}

-- An agent of risk 60 that sends out 25 times what it receives.
abbrev pub spike : Request
spike = record {
  pid = 7;
  agent_name = "agent";
  risk_score = 60;
  risk_level = "High";
  anomaly_type = some "OutboundSpike";
  anomaly_severity = none;
  deviation = some 25_000;
  correlation_type = none;
  destination = some "data-exfil.com";
  process_name = none;
  file_path = none;
  known_destinations = "api.openai.com" ∷ [];
}

abbrev pub quiet : Request
quiet = record spike { risk_score = 10; anomaly_type = none; destination = some "api.openai.com" }

abbrev pub context : EnforcementContext
context = record {
  risk_score = 60;
  risk_level = "High";
  anomaly_type = none;
  anomaly_severity = none;
  deviation = none;
  correlation_type = none;
  destination = some "data-exfil.com";
  process_name = none;
  file_path = none;
}

abbrev pub decision : EnforcementDecision
decision = record {
  id = 100;
  pid = 7;
  agent_name = "agent";
  action = block;
  reason = "risk";
  rule = "block_critical_risk";
  confidence = 500;
  timestamp = 0;
  policy_name = "destination_security";
  policy_version = 1;
  context = context;
}

-- One policy with one rule, which matches from risk 41 on.
abbrev pub strict_rule : PolicyRule
strict_rule = record {
  name = "strict";
  action = flag;
  priority = 5;
  conditions = record no_conditions { risk_score_min = some 41 };
}

abbrev pub strict : VersionedPolicy
strict = record {
  id = 1;
  name = "strict";
  description = "";
  version = 1;
  enabled = true;
  rules = strict_rule ∷ [];
  created_at = 0;
  updated_at = 0;
}

abbrev pub excuse : HumanOverride
excuse = record {
  id = 9;
  decision_id = 100;
  action = temporary_allow;
  reason = "expected";
  expires_at = some 5_000_000_000;
  created_by = "admin";
  created_at = 0;
}

-- An engine with a decision about process 7 on record.
abbrev pub engine : DecisionEngine
engine = record { policies = strict ∷ []; decisions = decision ∷ []; overrides = [] }

abbrev pub excused : DecisionEngine
excused = record engine { overrides = excuse ∷ [] }
