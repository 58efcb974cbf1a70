-- ===== src/Decision/Matching.antt =====
-- `matches_rule` and `calculate_confidence` of crates/decision/src/lib.rs.
use mathlib.Core.Bool.{xor}
use text.Mathlib.Text.{◌==◌ as str_eq}
use omnisec.Prelude.{Bool, true, false, not, ◌&&◌, Option, none, some, ltb, if◌then◌else◌}
use omnisec.Prelude.Texts.{has_part}
use omnisec.Prelude.External.{F64, FloatOps}
use omnisec.Decision.Types.{EnforcementContext, PolicyConditions}

-- `if let Some(a) = o { if !test(a) { return false; } }`
abbrev pub when_set {ℓ} : {A : Type ℓ} → Option A → (A → Bool) → Bool
when_set none test = true
when_set (some a) test = test a

-- `match o { Some(a) => test(a), None => return false }`
abbrev pub present {ℓ} : {A : Type ℓ} → Option A → (A → Bool) → Bool
present none test = false
present (some a) test = test a

module _ (f : FloatOps) where
  -- A failed check returns at once, which a conjunction expresses.
  unfoldable pub matches_rule : PolicyConditions → EnforcementContext → Bool → Bool
  matches_rule c context is_new_dest =
      when_set c.risk_score_min (λ low. not (ltb context.risk_score low))
      && when_set c.risk_score_max (λ high. not (ltb high context.risk_score))
      && when_set c.anomaly_type (λ t. present context.anomaly_type (λ actual. str_eq actual t))
      && when_set c.destination_match (λ d. present context.destination (λ actual. str_eq actual d))
      && when_set c.destination_pattern
          (λ d. present context.destination (λ actual. has_part actual d))
      && when_set c.process_name_match
          (λ p. present context.process_name (λ actual. str_eq actual p))
      && when_set c.file_path_pattern (λ p. present context.file_path (λ actual. has_part actual p))
      && when_set c.is_known_destination (λ known. xor is_new_dest known)
      && when_set c.is_new_destination (λ new. not (xor is_new_dest new))
      && when_set c.correlation_type
          (λ t. present context.correlation_type (λ actual. str_eq actual t))
      && when_set c.outbound_ratio_min
          (λ low. present context.deviation (λ actual. not (f.lt actual low)))
      && when_set c.incident_count_min (λ low. not (ltb context.risk_score low))

  abbrev is_some {ℓ} : {A : Type ℓ} → Option A → Bool
  is_some none = false
  is_some (some a) = true

  -- The rule is an argument that the code does not read.
  unfoldable pub calculate_confidence : EnforcementContext → F64
  calculate_confidence context =
      let base = f.literal 5 1 in
      let risk =
        f.add base (f.mul (f.div (f.of_nat context.risk_score) (f.of_nat 100)) (f.literal 3 1)) in
      let anomaly = if is_some context.anomaly_type then f.add risk (f.literal 1 1) else risk in
      let correlated =
        if is_some context.correlation_type then f.add anomaly (f.literal 1 1) else anomaly in
      f.f64_min correlated (f.literal 1 0)
