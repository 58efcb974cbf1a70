-- ===== src/Tests/ReliabilityExamples.antt =====
-- Examples for the reliability layer.
use omnisec.Prelude.{ℕ, ◌+◌, ◌≡◌, refl, true, false, none, some, [], ◌∷◌, arith}
use omnisec.Prelude.Integers.{ℤ, pos, negsuc}
use omnisec.Prelude.Tables.{lookup}
use omnisec.Reliability.Incident.{
  IncidentEngine, Report, high, agent_crash, investigating, resolved,
}
use omnisec.Reliability.Lifecycle.{
  Sound, Calls, creating, updating, acting, run as run_calls, run-Sound,
}
use omnisec.Reliability.Dependency.{
  DependencyMonitor, DependencyHealth, HealthCheck, CheckResult, redis, unknown, counted,
  threshold_of,
}
use omnisec.Reliability.Checks.{Assessed, run as run_checks, run-Assessed}
use omnisec.Reliability.Policy.{PolicyAction, alert}
use omnisec.Tests.Fixtures.{thousandths}

abbrev report : Report
report = record {
  agent_id = none;
  agent_name = "agent";
  pid = 7;
  incident_type = agent_crash;
  severity = high;
  title = "crash";
  description = "exit 1";
}

abbrev no_incidents : IncidentEngine
no_incidents = record { incidents = [] }

-- Each reading of the clock is one later than the one before it.
abbrev from : ℕ → ℕ → ℕ
from t n = t + n

abbrev calls : Calls
calls =
    (creating report, 1, from 10)
    ∷ (updating 1 investigating, 2, from 20)
    ∷ (acting 1 "restart" true none none, 3, from 30)
    ∷ (updating 1 resolved, 4, from 40)
    ∷ []

run-Sound_example : Sound 42 (run_calls no_incidents calls)
run-Sound_example =
    run-Sound 0 no_incidents calls
      (
        omega arith,
        omega arith,
        omega arith,
        (
          omega arith,
          omega arith,
          omega arith,
          (omega arith, omega arith, omega arith, (omega arith, omega arith, omega arith, tt)),
        ),
      )
      tt

abbrev to_thousandths : ℤ → ℕ
to_thousandths (pos n) = n
to_thousandths (negsuc n) = 0

abbrev cache_health : DependencyHealth
cache_health = record {
  name = "cache";
  dependency_type = redis;
  status = unknown;
  last_check = 0;
  latency_ms = none;
  error = none;
  consecutive_failures = 0;
  uptime_percent = 100_000;
}

abbrev cache_check : HealthCheck
cache_check = record {
  name = "cache";
  dependency_type = redis;
  check_interval_secs = 10;
  timeout_secs = 1;
  failure_threshold = 2;
}

abbrev monitor : DependencyMonitor
monitor = record {
  dependencies = ("cache", cache_health) ∷ [];
  checks = cache_check ∷ [];
  total_checks = [];
  successful_checks = [];
}

abbrev good : CheckResult
good = record { success = true; latency_ms = none; error = none; at = 5 }

abbrev bad : CheckResult
bad = record good { success = false }

known : lookup monitor.dependencies "cache" ≡ some cache_health
unfolding lookup
known = refl

uncounted : counted [] "cache" ≡ 0
unfolding lookup
uncounted = refl

run-Assessed_example :
    Assessed thousandths "cache"
      (threshold_of monitor.checks "cache")
      (run_checks thousandths "cache" monitor (good ∷ bad ∷ bad ∷ []))
      2
      3
      1
run-Assessed_example =
    run-Assessed thousandths "cache" monitor good (bad ∷ bad ∷ []) (omega arith)
      (cache_health, known, refl, uncounted, uncounted)

abbrev quiet_action : PolicyAction
quiet_action = record {
  action = alert;
  max_retries = none;
  alert_channels = none;
  escalate_after = none;
}
