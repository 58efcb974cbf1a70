-- ===== src/Security/Scores.antt =====
-- The risk score of an agent in crates/security/src/lib.rs, along any sequence of what raises it.
use omnisec.Prelude.{
  ℕ, ◌+◌, ◌*◌, ◌%◌, ◌^◌, ◌<◌, ◌≤◌, ◌≡◌, min, refl, sym, subst, ◌∙◌, String, List, [], ◌∷◌, ◌++◌,
  arith,
}
use omnisec.Prelude.External.{F64, F64Text}
use omnisec.Security.Risk.{
  AgentRiskScore, RiskLevel, normal, suspicious, high_risk, critical, new_risk_score, calculate,
  total_of, level_of, add_most, new_destination_found, traffic_spike_detected,
  outbound_spike_detected, fingerprint_drift_detected, time_anomaly_detected,
}

pub data Finding : Type 0 where
  destinations : ℕ → Finding
  traffic : F64 → Finding
  outbound : F64 → Finding
  drift : F64 → Finding
  hour : Finding

module _ (t : F64Text) where
  abbrev pub raise : AgentRiskScore → Finding → AgentRiskScore
  raise r (destinations n) = new_destination_found n r
  raise r (traffic x) = traffic_spike_detected t x r
  raise r (outbound x) = outbound_spike_detected t x r
  raise r (drift x) = fingerprint_drift_detected t x r
  raise r hour = time_anomaly_detected r

  abbrev pub raise_all : AgentRiskScore → List Finding → AgentRiskScore
  raise_all r [] = r
  raise_all r (x ∷ xs) = raise_all (raise r x) xs

-- The points that a finding adds to one of the four scores, with what the source caps them at.
abbrev pub points_of : F64Text → Finding → ℕ
points_of t (destinations n) = min (n * 15 % 2 ^ 32) 40
points_of t (traffic x) = min (t.to_nat 32 x * 2 % 2 ^ 32) 30
points_of t (outbound x) = min (t.to_nat 32 x * 5 % 2 ^ 32) 30
points_of t (drift x) = min (t.to_nat 32 x * 2 % 2 ^ 32) 40
points_of t hour = 20

abbrev pub points : F64Text → List Finding → ℕ
points t [] = 0
points t (x ∷ xs) = points_of t x + points t xs

-- The bands of the total.
abbrev pub InBand : RiskLevel → ℕ → Type 0
InBand normal n = n ≤ 20
InBand suspicious n = (20 < n) × (n ≤ 50)
InBand high_risk n = (50 < n) × (n ≤ 80)
InBand critical n = 80 < n

level_of-InBand : (n : ℕ) → InBand (level_of n) n
level_of-InBand n = ground arith

-- The four scores together, cut off at 100.
abbrev capped : AgentRiskScore → ℕ
capped r = min (r.destination_score + r.traffic_score + r.time_score + r.behavior_score) 100

total_lem : (r : AgentRiskScore) → total_of r ≡ capped r
total_lem r = ground arith

-- What a saturating addition to one of four scores adds to all of them, cut off at 100.
module _ (a b c d x p : ℕ) (h : min (a + b + c + d) 100 ≡ min p 100) where
  first_adds : min (add_most a x + b + c + d) 100 ≡ min (p + x) 100
  first_adds = ground (arith, h)

  second_adds : min (a + add_most b x + c + d) 100 ≡ min (p + x) 100
  second_adds = ground (arith, h)

  third_adds : min (a + b + add_most c x + d) 100 ≡ min (p + x) 100
  third_adds = ground (arith, h)

  fourth_adds : min (a + b + c + add_most d x) 100 ≡ min (p + x) 100
  fourth_adds = ground (arith, h)

-- A score with a number of points.
abbrev Counted : AgentRiskScore → ℕ → Type 0
Counted r p =
    (r.total_score ≡ min p 100) × InBand r.risk_level r.total_score × (capped r ≡ min p 100)

points-append :
    (t : F64Text) (xs ys : List Finding) → points t (xs ++ ys) ≡ points t xs + points t ys
points-append t [] ys = omega arith
points-append t (x ∷ xs) ys = omega (arith, points-append t xs ys)

module _ (t : F64Text) where
  capped-raise :
      (r : AgentRiskScore) (x : Finding) (p : ℕ)
      → capped r ≡ min p 100
      → capped (raise t r x) ≡ min (p + points_of t x) 100
  unfolding new_destination_found traffic_spike_detected outbound_spike_detected
      fingerprint_drift_detected time_anomaly_detected calculate
  capped-raise r (destinations n) p h =
      first_adds r.destination_score r.traffic_score r.time_score r.behavior_score _ p h
  capped-raise r (traffic x) p h =
      second_adds r.destination_score r.traffic_score r.time_score r.behavior_score _ p h
  capped-raise r (outbound x) p h =
      second_adds r.destination_score r.traffic_score r.time_score r.behavior_score _ p h
  capped-raise r (drift x) p h =
      fourth_adds r.destination_score r.traffic_score r.time_score r.behavior_score _ p h
  capped-raise r hour p h =
      third_adds r.destination_score r.traffic_score r.time_score r.behavior_score 20 p h

  -- `calculate` has run last.
  raise_calculated :
      (r : AgentRiskScore) (x : Finding)
      → ((raise t r x).total_score ≡ total_of (raise t r x))
        × ((raise t r x).risk_level ≡ level_of (raise t r x).total_score)
  unfolding new_destination_found traffic_spike_detected outbound_spike_detected
      fingerprint_drift_detected time_anomaly_detected calculate
  raise_calculated r (destinations n) = (refl, refl)
  raise_calculated r (traffic x) = (refl, refl)
  raise_calculated r (outbound x) = (refl, refl)
  raise_calculated r (drift x) = (refl, refl)
  raise_calculated r hour = (refl, refl)

  raise-Counted :
      (r : AgentRiskScore) (x : Finding) (p : ℕ)
      → Counted r p
      → Counted (raise t r x) (p + points_of t x)
  raise-Counted r x p (total, band, c) =
      let next = capped-raise r x p c in
      let (total', level) = raise_calculated r x in
      (
        total' ∙ total_lem (raise t r x) ∙ next,
        subst (λ l. InBand l (raise t r x).total_score) (sym level)
            (level_of-InBand (raise t r x).total_score),
        next,
      )

  raise_all-Counted :
      (xs : List Finding) (r : AgentRiskScore) (p : ℕ)
      → Counted r p
      → Counted (raise_all t r xs) (p + points t xs)
  raise_all-Counted [] r p h = subst (Counted r) (omega arith) h
  raise_all-Counted (x ∷ xs) r p h =
      subst (Counted (raise_all t (raise t r x) xs)) (omega arith)
        (raise_all-Counted xs (raise t r x) (p + points_of t x) (raise-Counted r x p h))

module _ (t : F64Text) (pid : ℕ) (agent_name : String) where
  -- The score of a new agent after findings.
  abbrev pub scored : List Finding → AgentRiskScore
  scored xs = raise_all t (new_risk_score pid agent_name) xs

  scored-Counted : (xs : List Finding) → Counted (scored xs) (points t xs)
  unfolding new_risk_score
  scored-Counted xs =
      subst (Counted (scored xs)) (omega arith)
        (raise_all-Counted t xs (new_risk_score pid agent_name) 0 (refl, omega arith, refl))

  -- Whatever is found of a new agent, in whatever order, its total score is the sum of the points of the
  -- findings, each with its own cap, cut off at 100; its level is normal up to 20, suspicious up to 50, high up to
  -- 80 and critical above; and no further findings lower the total.
  pub total_score-scored :
      (xs ys : List Finding)
      → ((scored xs).total_score ≡ min (points t xs) 100)
        × InBand (scored xs).risk_level (scored xs).total_score
        × ((scored xs).total_score ≤ (scored (xs ++ ys)).total_score)
  total_score-scored xs ys =
      let (total, band, c) = scored-Counted xs in
      let (total', band', c') = scored-Counted (xs ++ ys) in
      (total, band, ground (arith, total, total', points-append t xs ys))
