-- ===== src/Restart/Engine.antt =====
-- `RestartEngine` of crates/restart/src/lib.rs.
use omnisec.Prelude.{
  ℕ, zero, suc, ◌+◌, ◌-◌, ◌*◌, ◌%◌, ◌^◌, String, Bool, true, false, Option, none, some, List, [],
  ◌∷◌, ltb, leb, if◌then◌else◌,
}
use omnisec.Prelude.External.{Uuid, DateTime, F64, FloatOps, Duration, DurationOps}

pub record RestartConfig : Type 0 where
  pub max_retries : ℕ  -- u32
  pub retry_delay : Duration
  pub backoff_multiplier : F64
  pub max_backoff : Duration
  pub cooldown_period : Duration

abbrev pub secs : ℕ → Duration
secs n = n * 1_000_000_000

unfoldable pub default_config : FloatOps → RestartConfig
default_config f = record {
  max_retries = 3;
  retry_delay = secs 1;
  backoff_multiplier = f.literal 2 0;
  max_backoff = secs 30;
  cooldown_period = secs 60;
}

pub record RestartAttempt : Type 0 where
  pub id : Uuid
  pub agent_name : String
  pub agent_pid : ℕ
  pub attempt_number : ℕ
  pub started_at : DateTime
  pub completed_at : Option DateTime
  pub success : Bool
  pub new_pid : Option ℕ
  pub error : Option String
  pub duration_ms : Option ℕ

pub record RestartResult : Type 0 where
  pub success : Bool
  pub attempts : List RestartAttempt
  pub total_duration_ms : ℕ
  pub final_pid : Option ℕ

pub data AgentStatus : Type 0 where
  healthy degraded failed restarting permanently_failed : AgentStatus

pub record AgentState : Type 0 where
  pub name : String
  pub pid : ℕ
  pub restart_count : ℕ
  pub last_restart : Option DateTime
  pub consecutive_failures : ℕ
  pub status : AgentStatus

-- What `restart_fn` answers.
pub data Answer : Type 0 where
  started : ℕ → Answer
  error : String → Answer

-- What the outside world gives to one attempt: the answer, the fresh id and the clock's readings.
pub record Observed : Type 0 where
  pub answer : Answer
  pub id : Uuid
  pub started_at : DateTime
  pub completed_at : DateTime
  pub duration_ms : ℕ

abbrev pub is_started : Answer → Bool
is_started (started pid) = true
is_started (error e) = false

abbrev pub pid_of : Answer → Option ℕ
pid_of (started pid) = some pid
pid_of (error e) = none

abbrev pub error_of : Answer → Option String
error_of (started pid) = none
error_of (error e) = some e

unfoldable pub attempt_of : AgentState → ℕ → Observed → RestartAttempt
attempt_of agent n o = record {
  id = o.id;
  agent_name = agent.name;
  agent_pid = agent.pid;
  attempt_number = n;
  started_at = o.started_at;
  completed_at = some o.completed_at;
  success = is_started o.answer;
  new_pid = pid_of o.answer;
  error = error_of o.answer;
  duration_ms = some o.duration_ms;
}

-- The attempts, the new pid if one succeeded, and the delays slept.
abbrev pub Outcome : Type 0
Outcome = List RestartAttempt × Option ℕ × List Duration

-- The result that the two `return`s of `attempt_restart` build.
unfoldable pub result_of : ℕ → Outcome → RestartResult × List Duration
result_of total (attempts, pid, delays) = (
  record {
    success = elim pid [ none ↦ false | some p ↦ true ];
    attempts = attempts;
    total_duration_ms = total;
    final_pid = pid;
  },
  delays,
)

module _ (f : FloatOps) (t : DurationOps) (config : RestartConfig) where
  -- Attempts are numbered from 1, so the exponent is not negative.
  unfoldable pub calculate_delay : ℕ → Duration
  calculate_delay attempt =
      let base = t.as_secs config.retry_delay in
      let backoff = f.mul base (f.powi config.backoff_multiplier (attempt - 1)) in
      t.from_secs (f.f64_min backoff (t.as_secs config.max_backoff))

  -- The body of the loop of `attempt_restart`: a success returns, a failure sleeps and goes on.
  unfoldable pub round : ℕ → RestartAttempt → Outcome → Answer → Outcome
  round n attempt rest (started pid) = (attempt ∷ [], some pid, [])
  round n attempt (attempts, pid, delays) (error e) =
      (attempt ∷ attempts, pid, calculate_delay n ∷ delays)

  -- The loop, with `left` rounds left before round `n`.
  unfoldable pub attempt_loop : AgentState → (ℕ → Observed) → ℕ → ℕ → Outcome
  unfolding round
  attempt_loop agent world n zero = ([], none, [])
  attempt_loop agent world n (suc left) =
      round n (attempt_of agent n (world n)) (attempt_loop agent world (n + 1) left)
        (world n).answer

  -- `for attempt_num in 1..=max_retries`. `total` is the time that the whole call took.
  unfoldable pub attempt_restart : AgentState → (ℕ → Observed) → ℕ → RestartResult × List Duration
  unfolding attempt_loop result_of
  attempt_restart agent world total =
      result_of total (attempt_loop agent world 1 config.max_retries)

abbrev pub u32_mod : ℕ
u32_mod = 2 ^ 32

-- The `match` of `should_restart`.
unfoldable pub should_restart_in : AgentStatus → ℕ → Bool
should_restart_in permanently_failed failures = false
should_restart_in restarting failures = false
should_restart_in healthy failures = ltb 0 failures
should_restart_in degraded failures = ltb 0 failures
should_restart_in failed failures = ltb 0 failures

unfoldable pub should_restart : AgentState → Bool
unfolding should_restart_in
should_restart agent = should_restart_in agent.status agent.consecutive_failures

unfoldable pub calculate_health : RestartConfig → AgentState → AgentStatus
calculate_health config agent =
    if leb (config.max_retries * 2 % u32_mod) agent.consecutive_failures
    then permanently_failed
    else if leb config.max_retries agent.consecutive_failures
    then failed
    else if ltb 0 agent.consecutive_failures
    then degraded
    else healthy
