-- ===== src/Tests/MonitoringExamples.antt =====
-- Examples for the health monitor and the restart engine.
use omnisec.Prelude.{ℕ, ◌*◌, ◌≡◌, ◌≤◌, refl, not, none, some, List, [], ◌∷◌, arith, leb, any, ◌==◌}
use omnisec.Prelude.Maps.{get}
use omnisec.Monitoring.Health.{
  HealthMonitor, HealthStatus, Observation, healthy, restarting, with_failure_threshold,
  check_health, fresh_status,
}
use omnisec.Monitoring.Local.{vitals, limits, vitals_after, events_of, check_health-vitals}
use omnisec.Monitoring.Rounds.{
  Call, registering, unregistering, setting, check, run, OneEach, On, run-with_failure_threshold,
}
use omnisec.Monitoring.Death.{rounds, deaths, dead_for, deaths-rounds}
use omnisec.Monitoring.Retry.{
  RestartConfig, RestartState, RestartEngine, with_config, next_backoff, attempt_count, second,
}
use omnisec.Monitoring.Pacing.{attempt, happens, happens-with_config}
use omnisec.Tests.Fixtures.{thousandths}

-- Process 8 is alive, the others are dead.
abbrev only_8 : ℕ → Observation
only_8 pid = record { is_alive = pid == 8; stats = none; ticks = none }

abbrev status : ℕ → HealthStatus
status pid = record (fresh_status thousandths pid "agent") { state = healthy }

-- Two agents and a threshold of two failures.
abbrev monitor : HealthMonitor
monitor = record {
  agents = (7, status 7) ∷ (8, status 8) ∷ [];
  failure_threshold = 2;
  last_cpu_ticks = [];
  zero_delta_cycles = [];
  hang_threshold_cycles = 6;
}

monitor-OneEach : OneEach monitor
unfolding any
monitor-OneEach = (refl, (refl, tt))

check_health-vitals_example :
    ((q : ℕ)
      → vitals (check_health monitor only_8).0 q
        ≡ vitals_after (limits monitor) q (only_8 q) (vitals monitor q))
    × ((check_health monitor only_8).1
        ≡ events_of (limits monitor) only_8 (vitals monitor) (7 ∷ 8 ∷ []))
check_health-vitals_example = check_health-vitals only_8 monitor monitor-OneEach

seven : get monitor.agents 7 ≡ some (status 7)
unfolding get
seven = refl

deaths-rounds_example :
    (deaths 7 (rounds monitor (only_8 ∷ only_8 ∷ only_8 ∷ [])).1 ≡ 1)
    × (get (rounds monitor (only_8 ∷ only_8 ∷ only_8 ∷ [])).0.agents 7
        ≡ some (dead_for 2 (status 7) 3))
deaths-rounds_example =
    deaths-rounds monitor 7 (status 7) (only_8 ∷ only_8 ∷ only_8 ∷ []) monitor-OneEach (omega arith)
      seven refl refl (refl, (refl, (refl, tt))) (omega arith)

abbrev calls : List Call
calls =
    registering 7 "agent"
    ∷ check only_8
    ∷ check only_8
    ∷ setting 7 restarting
    ∷ check only_8
    ∷ registering 8 "other"
    ∷ check only_8
    ∷ unregistering 7
    ∷ []

run-with_failure_threshold_example :
    OneEach (run thousandths (with_failure_threshold 2) calls)
    × ((q : ℕ)
        → On
            (λ s. s.alive ≡ not (leb 2 s.consecutive_failures))
            (get (run thousandths (with_failure_threshold 2) calls).agents q))
run-with_failure_threshold_example =
    run-with_failure_threshold thousandths 2 calls (omega arith) (omega arith)

abbrev restarts : RestartConfig
restarts = record {
  initial_backoff = 2 * second;
  max_backoff = 300 * second;
  max_retries = some 5;
  cooldown = 30 * second;
}

abbrev tried : ℕ → RestartState
tried n = record {
  pid = 7;
  name = "agent";
  attempt = n;
  last_attempt = some 0;
  cooldown_until = none;
}

backoff_run : next_backoff (tried 3) restarts ≡ 16 * second
unfolding next_backoff
backoff_run = refl

-- After 64 attempts there is no backoff.
wrapped_run : next_backoff (tried 64) restarts ≡ 0
unfolding next_backoff
wrapped_run = refl

happens-with_config_example :
    attempt_count (happens (with_config restarts) (attempt 7 0 0 0 ∷ [])) 7 ≤ 5
happens-with_config_example =
    happens-with_config restarts 5 (attempt 7 0 0 0 ∷ []) 7 refl (omega arith)

abbrev engine : RestartEngine
engine = record { agents = (7, tried 3) ∷ []; config = restarts }
