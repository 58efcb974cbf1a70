-- ===== src/Tests/SecurityExamples.antt =====
-- Examples for anomalies and for correlations between agents.
use native.Mathlib.Nat.{
  lt-div-mul-add, div-lt_iff_lt-mul, mul-le-mul_right, add-mul, mul_assoc, mul_right_comm,
  le-div_iff_mul-le,
}
use omnisec.Prelude.{
  ℕ, ◌+◌, ◌*◌, ◌/◌, ◌<◌, ◌≤◌, ◌≡◌, refl, ap, sym, subst, ◌∙◌, true, List, [], ◌∷◌, ◌++◌, map,
  retain, update_first, any, length, arith, ltb→lt, ltb, if◌then◌else◌,
}
use omnisec.Prelude.External.{F64Text}
use omnisec.Prelude.Decimal.{decimal}
use omnisec.Prelude.Maps.{get, put}
use omnisec.Anomaly.Types.{AnomalyDetector, established, learning}
use omnisec.Anomaly.Records.{push_anomaly, anomaly_count, get_anomalies, resolve_anomaly}
use omnisec.Anomaly.Checks.{check_new_destination, check_outbound_spike}
use omnisec.Anomaly.Outcome.{destination, outbound}
use omnisec.Anomaly.Log.{Call, checking, resolving, run, forget, of_pid, run-Extended}
use omnisec.Security.Snapshots.{AgentActivitySnapshot}
use omnisec.Security.Correlation.{
  mean_rate, stands_out, individual_traffic, individual_outbound, detect_traffic_correlation,
  detect_outbound_correlation,
}
use omnisec.Security.Globals.{WholeOps, spikes_individual}
use omnisec.Tests.Fixtures.{thousandths}

abbrev pub printing : F64Text
printing = record { display = λ x. "x"; fixed = λ n x. "x"; to_nat = λ n x. x / 1000 }

linear :
    (s n x y : ℕ)
    → s * 1000 * 1000 < x * 1000 + n * 1000
    → x * 3 + 1 * n ≤ y * 1000
    → 1 * n ≤ y
    → 2 * s < y
linear s n x y a c d = omega (arith, a, c, d)

thousandths_triple :
    (s n r : ℕ)
    → 1 ≤ n
    → ltb (s * 1000 * 1000 / (n * 1000) * 3000 / 1000) (r * 1000) ≡ true
    → 2 * s < r * n
thousandths_triple s n r p h =
    let q : ℕ = s * 1000 * 1000 / (n * 1000) in
    let positive : 0 < n * 1000 = ground (arith, p) in
    let a : s * 1000 * 1000 < q * (n * 1000) + n * 1000 =
      lt-div-mul-add {a = s * 1000 * 1000} positive in
    let b : q * 3000 < r * 1000 * 1000 =
      (div-lt_iff_lt-mul (omega arith)).0 (ltb→lt (q * 3000 / 1000) (r * 1000) h) in
    let c : (q * 3 + 1) * n ≤ r * 1000 * n = mul-le-mul_right n (omega (arith, b)) in
    let d : 1 * n ≤ r * n = mul-le-mul_right n (omega (arith, b)) in
    linear s n (q * n) (r * n)
      (subst (λ x. s * 1000 * 1000 < x + n * 1000) (sym (mul_assoc q n 1000)) a)
      (subst (λ x. x ≤ r * n * 1000)
        (add-mul (q * 3) 1 n ∙ ap (λ x. x + 1 * n) (mul_right_comm q 3 n))
        (subst (λ x. (q * 3 + 1) * n ≤ x) (mul_right_comm r 1000 n) c))
      d

thousandths_seven : (k n : ℕ) → 1 ≤ n → ltb 700 (k * 1000 * 1000 / (n * 1000)) ≡ true → n < 2 * k
thousandths_seven k n p h =
    let positive : 0 < n * 1000 = ground (arith, p) in
    let a : 701 * (n * 1000) ≤ k * 1000 * 1000 =
      (le-div_iff_mul-le positive).0 (ltb→lt 700 (k * 1000 * 1000 / (n * 1000)) h) in
    omega (arith, a, p)

thousandths-WholeOps : WholeOps thousandths
thousandths-WholeOps = record {
  zero_whole = refl;
  add_whole = λ a b h. omega arith;
  triple = λ s n r p a b c h. thousandths_triple s n r p h;
  seven_tenths = λ k n p a b h. thousandths_seven k n p h;
}

abbrev snapshot : ℕ → ℕ → ℕ → AgentActivitySnapshot
snapshot pid rate_in rate_out = record {
  pid = pid;
  agent_name = "agent";
  traffic_rate_in = rate_in * 1000;
  traffic_rate_out = rate_out * 1000;
  connection_count = 1;
  risk_score = 0;
  new_destinations = [];
  active_hour = 10;
  is_active = true;
}

abbrev snapshots : List AgentActivitySnapshot
snapshots = snapshot 1 9_000 9_000 ∷ snapshot 2 9_000 9_000 ∷ snapshot 3 9_000 9_000 ∷ []

-- Three agents with the same high traffic: no alert.
no_alert : detect_traffic_correlation thousandths printing 0 snapshots ≡ []
unfolding detect_traffic_correlation retain
no_alert = refl

spikes_individual_example :
    (detect_traffic_correlation thousandths printing 0 snapshots
      ≡ map
          (individual_traffic thousandths printing 0
            (mean_rate thousandths (map (λ a. a.traffic_rate_in) snapshots)))
          (retain
            (λ a.
              stands_out thousandths
                (mean_rate thousandths (map (λ a. a.traffic_rate_in) snapshots))
                1_000_000
                a.traffic_rate_in)
            snapshots))
    × (detect_outbound_correlation thousandths printing 0 snapshots ≡ (
        if ltb (mean_rate thousandths (map (λ a. a.traffic_rate_out) snapshots)) 100_000
        then []
        else map
            (individual_outbound thousandths printing 0
              (mean_rate thousandths (map (λ a. a.traffic_rate_out) snapshots)))
            (retain
              (λ a.
                stands_out thousandths
                  (mean_rate thousandths (map (λ a. a.traffic_rate_out) snapshots))
                  5_000_000
                  a.traffic_rate_out)
              snapshots)))
spikes_individual_example =
    spikes_individual thousandths printing 0 thousandths-WholeOps (λ a. a.traffic_rate_in / 1000)
      (λ a. a.traffic_rate_out / 1000) snapshots (omega arith) (omega arith)
      (refl, (refl, (refl, tt))) (omega arith) (refl, (refl, (refl, tt))) (omega arith)

abbrev calls : List Call
calls =
    checking 5_000_000_000 7 "agent" established
      (destination "data.example" 443 ("api.openai.com" ∷ []))
    ∷ resolving 6_000_000_000 7 "new-dest-7-5"
    ∷ checking 7_000_000_000 7 "agent" established (outbound 100 0)
    ∷ checking 7_000_000_000 7 "agent" learning (outbound 100 0)
    ∷ []

abbrev detector : AnomalyDetector
detector = record {
  config = record {
    traffic_spike_multiplier = 3_000;
    outbound_ratio_threshold = 5_000;
    drift_threshold = 30_000;
    connection_spike_multiplier = 3_000;
  };
  anomalies = [];
  baselines = [];
}

-- The destination and the outbound traffic are reported.
count_run : anomaly_count (run thousandths printing detector calls).0 ≡ 2
unfolding anomaly_count check_new_destination check_outbound_spike resolve_anomaly get put any
    push_anomaly decimal update_first
count_run = refl

run-Extended_example :
    ((q : ℕ)
      → map forget (get_anomalies (run thousandths printing detector calls).0 q)
        ≡ map forget (get_anomalies detector q)
          ++ of_pid q (run thousandths printing detector calls).1)
    × (anomaly_count (run thousandths printing detector calls).0
        ≡ anomaly_count detector + length (run thousandths printing detector calls).1)
run-Extended_example = run-Extended thousandths printing calls detector
