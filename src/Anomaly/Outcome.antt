-- ===== src/Anomaly/Outcome.antt =====
-- What one check of crates/anomaly/src/lib.rs leaves and answers.
use omnisec.Prelude.{
  ℕ, ◌≡◌, refl, String, Bool, true, false, not, Option, none, List, any, length, ◌==◌, ltb,
  if◌then◌else◌,
}
use omnisec.Prelude.External.{DateTime, F64, FloatOps, F64Text}
use omnisec.Anomaly.Types.{
  AnomalyRecord, AnomalyDetector, BaselineState, learning, is_established, is_learning,
}
use omnisec.Anomaly.Checks.{
  answer_with, check_new_destination, check_traffic_spike, check_outbound_spike, check_time_anomaly,
  check_fingerprint_drift, check_connection_spike,
}

pub data Check : Type 0 where
  destination : String → ℕ → List String → Check
  traffic : F64 → F64 → Check
  outbound : ℕ → ℕ → Check
  hour : ℕ → List ℕ → Check
  drift : F64 → List String → Check
  connections : F64 → F64 → Check

-- A result of a check: nothing, or one unresolved record of the process, which is kept and answered.
pub data Outcome (d : AnomalyDetector) (pid : ℕ)
    : AnomalyDetector × Option AnomalyRecord → Type 0 where
  quiet : Outcome d pid (d, none)
  reported :
      (r : AnomalyRecord)
      → r.pid ≡ pid
      → r.resolved ≡ false
      → r.resolved_at ≡ none
      → Outcome d pid (answer_with d pid r)

unless :
    (d : AnomalyDetector) (pid : ℕ) (b : Bool) (x : AnomalyDetector × Option AnomalyRecord)
    → Outcome d pid x
    → Outcome d pid (if b then (d, none) else x)
unless d pid true x o = quiet
unless d pid false x o = o

either :
    (d : AnomalyDetector) (pid : ℕ) (b : Bool) (x y : AnomalyDetector × Option AnomalyRecord)
    → Outcome d pid x
    → Outcome d pid y
    → Outcome d pid (if b then x else y)
either d pid true x y o p = o
either d pid false x y o p = p

module _ (f : FloatOps) (t : F64Text) where
  abbrev pub perform :
      DateTime
      → AnomalyDetector
      → ℕ
      → String
      → BaselineState
      → Check
      → AnomalyDetector × Option AnomalyRecord
  perform now d pid name s (destination dest port known) =
      check_new_destination f t now d pid name dest port known s
  perform now d pid name s (traffic current baseline) =
      check_traffic_spike f t now d pid name current baseline s
  perform now d pid name s (outbound out in_) = check_outbound_spike f t now d pid name out in_ s
  perform now d pid name s (hour h hours) = check_time_anomaly f t now d pid name h hours s
  perform now d pid name s (drift score new) =
      check_fingerprint_drift f t now d pid name score new s
  perform now d pid name s (connections current avg) =
      check_connection_spike f t now d pid name current avg s

  pub perform-Outcome :
      (now : DateTime) (d : AnomalyDetector) (pid : ℕ) (name : String) (s : BaselineState)
      (c : Check)
      → Outcome d pid (perform now d pid name s c)
  unfolding check_new_destination check_traffic_spike check_outbound_spike check_time_anomaly
      check_fingerprint_drift check_connection_spike
  perform-Outcome now d pid name s (destination dest port known) =
      unless d pid _ _ (unless d pid _ _ (reported _ refl refl refl))
  perform-Outcome now d pid name s (traffic current baseline) =
      unless d pid _ _ (unless d pid _ _ (reported _ refl refl refl))
  perform-Outcome now d pid name s (outbound out in_) = unless d pid (not (is_established s)) _ (
      either d pid (ltb 0 in_) _ _
        (unless d pid (f.lt (f.div (f.of_nat out) (f.of_nat in_)) d.config.outbound_ratio_threshold)
          _ (reported _ refl refl refl))
        (either d pid (ltb 0 out) _ _ (reported _ refl refl refl) quiet))
  perform-Outcome now d pid name s (hour h hours) = unless d pid (not (is_established s)) _ (
      unless d pid (length hours == 0) _
        (unless d pid (any (λ x. x == h) hours) _ (reported _ refl refl refl)))
  perform-Outcome now d pid name s (drift score new) =
      unless d pid _ _ (unless d pid _ _ (reported _ refl refl refl))
  perform-Outcome now d pid name s (connections current avg) = unless d pid (is_learning s) _ (
      unless d pid (f.le avg (f.literal 0 1)) _ (
        unless d pid (f.lt current (f.mul avg d.config.connection_spike_multiplier)) _
          (reported _ refl refl refl)))

  -- While the baseline of an agent is being learned no check finds anything.
  perform_learning :
      (now : DateTime) (d : AnomalyDetector) (pid : ℕ) (name : String) (c : Check)
      → perform now d pid name learning c ≡ (d, none)
  unfolding check_new_destination check_traffic_spike check_outbound_spike check_time_anomaly
      check_fingerprint_drift check_connection_spike
  perform_learning now d pid name (destination dest port known) = refl
  perform_learning now d pid name (traffic current baseline) = refl
  perform_learning now d pid name (outbound out in_) = refl
  perform_learning now d pid name (hour h hours) = refl
  perform_learning now d pid name (drift score new) = refl
  perform_learning now d pid name (connections current avg) = refl
