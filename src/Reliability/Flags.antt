-- ===== src/Reliability/Flags.antt =====
-- What the detector of crates/reliability/src/fd.rs answers after a sample, whatever it held before.
use mathlib.Core.List.{reverse, reverse-append}
use omnisec.Prelude.{
  ℕ, ◌≡◌, refl, ap, Bool, true, false, Option, none, some, List, [], ◌∷◌, if◌then◌else◌, leb,
  length, drop,
}
use omnisec.Prelude.External.{DateTime, FloatOps}
use omnisec.Reliability.Readings.{push_bounded, flag_after}
use omnisec.Reliability.Descriptors.{
  FdSample, FdExhaustionDetector, record_fd_sample, detect_exhaustion, usage_of,
}

-- The flag and its time: the time is that of the detection before where the flag was set then, and `now` otherwise.
abbrev pub expected : Bool → DateTime → Option DateTime → Bool → Option DateTime
expected false now at was_set = none
expected true now at false = some now
expected true now at true = at

abbrev pub Timed : Bool → Option DateTime → Type 0
Timed false at = at ≡ none
Timed true at = (t : DateTime) × (at ≡ some t)

flag_lem :
    (found was_set : Bool) (now : DateTime) (at : Option DateTime)
    → Timed was_set at
    → flag_after found now was_set at ≡ (found, expected found now at was_set)
flag_lem true true now at h = refl
flag_lem true false now at h = refl
flag_lem false true now at h = refl
flag_lem false false now at h = ap (λ o. (false, o)) h

last_pushed :
    (most : ℕ) (ss : List FdSample) (s : FdSample)
    → (older : List FdSample) × (reverse (push_bounded most ss s) ≡ s ∷ older)
last_pushed most ss s =
    (_, reverse-append (if leb most (length ss) then drop 1 ss else ss) (s ∷ []))

module _ (f : FloatOps) (d : FdExhaustionDetector) (s : FdSample) (now : DateTime) where
  abbrev pub after : FdExhaustionDetector × Bool
  after = detect_exhaustion f now (record_fd_sample d s)

  -- Right after a sample is recorded, a detection answers whether the usage of that sample reaches the threshold,
  -- whatever the samples before it. The detector then holds that answer; it holds the time of this detection where
  -- it did not report an exhaustion before, keeps the earlier time where it did, and forgets it where the
  -- exhaustion is over.
  pub detect_exhaustion-record_fd_sample :
      Timed d.is_exhausted d.exhaustion_detected_at
      → (after.1 ≡ f.le d.threshold_percent (usage_of f s))
        × (after.0.is_exhausted ≡ f.le d.threshold_percent (usage_of f s))
        × (after.0.exhaustion_detected_at
            ≡ expected
                (f.le d.threshold_percent (usage_of f s))
                now
                d.exhaustion_detected_at
                d.is_exhausted)
  unfolding detect_exhaustion record_fd_sample
  detect_exhaustion-record_fd_sample h =
      let (older, e) = last_pushed d.max_samples d.samples s in
      let flag =
        flag_lem (f.le d.threshold_percent (usage_of f s)) d.is_exhausted now
          d.exhaustion_detected_at h in
      rw (detect_exhaustion, e) (ap (λ r. r.0) flag, ap (λ r. r.0) flag, ap (λ r. r.1) flag)
