-- ===== src/Tests/FingerprintExamples.antt =====
-- Examples for the versions of fingerprints.
use omnisec.Prelude.{ℕ, ◌+◌, ◌≡◌, refl, Option, none, some, List, [], ◌∷◌, arith, length}
use omnisec.Prelude.Maps.{get, put, put_new, alter}
use omnisec.Fingerprint.Types.{AgentFingerprint}
use omnisec.Fingerprint.Builder.{Observation, build, new_builder}
use omnisec.Fingerprint.Engine.{
  FingerprintManager, new_fingerprint_manager, finalize_fingerprint, get_history, get_fingerprint,
  drift_between, detect_drift, register_builder, observe,
}
use omnisec.Fingerprint.Versions.{
  Call, registering, observing, finalizing, run, AllTracked, Grown, run-Tracked,
  detect_drift-finalize,
}
use omnisec.Tests.Fixtures.{thousandths}
use omnisec.Tests.SecurityExamples.{printing}

abbrev seen : Observation
seen = record {
  seen_domains = "api.example" ∷ [];
  ip_range = "10.0.0.0/24";
  port = 443;
  protocol = "tcp";
  bytes_in = 5_000;
  bytes_out = 1_000;
  connection_count = 2_000;
  hour = 9;
  cpu_percent = 10_000;
  memory_mb = 90_000;
  fd_count = 12;
  thread_count = 4;
}

abbrev calls : List Call
calls = registering 7 "agent" ∷ observing 7 seen ∷ finalizing 1 50 7 ∷ finalizing 2 60 7 ∷ []

fresh-Tracked : AllTracked 0 new_fingerprint_manager
unfolding new_fingerprint_manager get_history get_fingerprint get
fresh-Tracked q = (tt, refl, omega arith)

run-Tracked_example :
    AllTracked (0 + length calls) (run thousandths printing new_fingerprint_manager calls)
    × ((q : ℕ)
        → Grown
            (get_history new_fingerprint_manager q)
            (get_history (run thousandths printing new_fingerprint_manager calls) q))
run-Tracked_example =
    run-Tracked thousandths printing calls 0 new_fingerprint_manager (omega arith) fresh-Tracked

abbrev ready : FingerprintManager
ready =
    run thousandths printing new_fingerprint_manager (registering 7 "agent" ∷ observing 7 seen ∷ [])

abbrev between : List Call
between = observing 7 seen ∷ finalizing 3 55 8 ∷ []

abbrev or_blank : Option AgentFingerprint → AgentFingerprint
or_blank none = build thousandths printing 0 0 (new_builder 0 "")
or_blank (some x) = x

abbrev first : FingerprintManager × Option AgentFingerprint
first = finalize_fingerprint thousandths printing 1 50 ready 7

abbrev second : FingerprintManager × Option AgentFingerprint
second = finalize_fingerprint thousandths printing 2 60 (run thousandths printing first.0 between) 7

first_made : first.1 ≡ some (or_blank first.1)
unfolding finalize_fingerprint register_builder observe new_fingerprint_manager get put put_new
    alter
first_made = refl

second_made : second.1 ≡ some (or_blank second.1)
unfolding finalize_fingerprint register_builder observe new_fingerprint_manager get put put_new
    alter
second_made = refl

detect_drift-finalize_example :
    detect_drift thousandths second.0 7
    ≡ some (drift_between thousandths (or_blank second.1) (or_blank first.1))
detect_drift-finalize_example =
    detect_drift-finalize thousandths printing 1 2 50 60 ready between 7 (or_blank first.1)
      (or_blank second.1) first_made (tt, (refl, tt)) second_made
