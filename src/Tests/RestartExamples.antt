-- ===== src/Tests/RestartExamples.antt =====
-- Examples for the restart engine.
use omnisec.Prelude.{
  arith, ℕ, ◌+◌, ◌*◌, ◌/◌, ◌≡◌, refl, true, ◌&&◌, ltb, none, [], ◌∷◌, if◌then◌else◌,
}
use omnisec.Prelude.External.{DurationOps}
use omnisec.Restart.Engine.{
  RestartConfig, AgentState, Observed, failed, started, error, attempt_restart, calculate_delay,
  should_restart, calculate_health,
}
use omnisec.Restart.Attempts.{Attempted, attempt_restart_lem}
use omnisec.Restart.Health.{should_restart-calculate_health}
use omnisec.Tests.Fixtures.{thousandths}

-- Seconds in thousandths and durations in nanoseconds.
abbrev milliseconds : DurationOps
milliseconds = record { as_secs = λ d. d / 1_000_000; from_secs = λ s. s * 1_000_000 }

abbrev config : RestartConfig
config = record {
  max_retries = 3;
  retry_delay = 1_000_000_000;
  backoff_multiplier = 2000;
  max_backoff = 30_000_000_000;
  cooldown_period = 60_000_000_000;
}

abbrev agent : AgentState
agent = record {
  name = "agent";
  pid = 7;
  restart_count = 0;
  last_restart = none;
  consecutive_failures = 2;
  status = failed;
}

abbrev agent_worse : AgentState
agent_worse = record agent { consecutive_failures = 4 }

-- The third attempt succeeds.
abbrev world : ℕ → Observed
world n = record {
  answer = if ltb n 3 then error "refused" else started 70;
  id = n;
  started_at = n;
  completed_at = n + 1;
  duration_ms = 1;
}

attempt_restart_lem_example :
    Attempted thousandths milliseconds config agent world 5
      (attempt_restart thousandths milliseconds config agent world 5)
attempt_restart_lem_example = attempt_restart_lem thousandths milliseconds config agent world 5

-- The delays double: one second, then two.
delays_run :
    (attempt_restart thousandths milliseconds config agent world 5).1
    ≡ 1_000_000_000 ∷ 2_000_000_000 ∷ []
unfolding attempt_restart calculate_delay
delays_run = refl

should_restart-calculate_health_example :
    should_restart (record agent { status = calculate_health config agent }) ≡ (true && true)
should_restart-calculate_health_example = should_restart-calculate_health config agent (omega arith)
