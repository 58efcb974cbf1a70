-- ===== src/Monitoring/Retry.antt =====
-- `RestartConfig`, `RestartState` and `RestartEngine` of crates/monitoring/src/lib.rs. A `Duration` and an
-- `Instant` are numbers of nanoseconds; `now` and `later` are what `Instant::now()` answers in turn.
use omnisec.Prelude.{
  ℕ, ◌+◌, ◌-◌, ◌*◌, ◌/◌, ◌%◌, ◌^◌, min, String, Bool, true, false, Option, none, some, List, [],
  ◌∷◌, map, ltb, leb, if◌then◌else◌,
}
use omnisec.Prelude.Maps.{NatMap, get, put_new, erase, alter}
use omnisec.Monitoring.Health.{u32_mod}

abbrev pub second : ℕ
second = 10 ^ 9

abbrev pub u64_mod : ℕ
u64_mod = 2 ^ 64

pub record RestartConfig : Type 0 where
  pub initial_backoff : ℕ
  pub max_backoff : ℕ
  pub max_retries : Option ℕ
  pub cooldown : ℕ

unfoldable pub default_restart_config : RestartConfig
default_restart_config = record {
  initial_backoff = 2 * second;
  max_backoff = 300 * second;
  max_retries = some 5;
  cooldown = 30 * second;
}

pub record RestartState : Type 0 where
  pub pid : ℕ
  pub name : String
  pub attempt : ℕ
  pub last_attempt : Option ℕ
  pub cooldown_until : Option ℕ

unfoldable pub new_restart_state : ℕ → String → RestartState
new_restart_state pid name = record {
  pid = pid;
  name = name;
  attempt = 0;
  last_attempt = none;
  cooldown_until = none;
}

-- `2u64.pow(attempt)` and the product wrap around.
unfoldable pub next_backoff : RestartState → RestartConfig → ℕ
next_backoff s config =
    let secs = config.initial_backoff / second * (2 ^ s.attempt % u64_mod) % u64_mod in
    min secs (config.max_backoff / second) * second

abbrev pub gives_up : Option ℕ → ℕ → Bool
gives_up none attempt = false
gives_up (some most) attempt = leb most attempt

abbrev pub cools_down : Option ℕ → ℕ → Bool
cools_down none now = false
cools_down (some until) now = ltb now until

abbrev pub has_waited : Option ℕ → ℕ → ℕ → Bool
has_waited none later backoff = true
has_waited (some last) later backoff = leb backoff (later - last)

unfoldable pub can_retry : RestartState → RestartConfig → ℕ → ℕ → Bool
unfolding next_backoff
can_retry s config now later =
    if gives_up config.max_retries s.attempt
    then false
    else if cools_down s.cooldown_until now
    then false
    else has_waited s.last_attempt later (next_backoff s config)

unfoldable pub state_record_attempt : ℕ → RestartState → RestartState
state_record_attempt now s = record s {
  attempt = (s.attempt + 1) % u32_mod;
  last_attempt = some now;
}

unfoldable pub state_mark_recovered : RestartConfig → ℕ → RestartState → RestartState
state_mark_recovered config now s = record s {
  attempt = 0;
  cooldown_until = some (now + config.cooldown);
}

pub record RestartEngine : Type 0 where
  pub agents : NatMap RestartState
  pub config : RestartConfig

unfoldable pub with_config : RestartConfig → RestartEngine
with_config config = record { agents = []; config = config }

unfoldable pub new_restart_engine : RestartEngine
unfolding with_config default_restart_config
new_restart_engine = with_config default_restart_config

unfoldable pub register_restart : RestartEngine → ℕ → String → RestartEngine
unfolding put_new new_restart_state
register_restart e pid name = record e {
  agents = put_new e.agents pid (new_restart_state pid name);
}

unfoldable pub unregister_restart : RestartEngine → ℕ → RestartEngine
unregister_restart e pid = record e { agents = erase e.agents pid }

unfoldable pub ready : RestartEngine → ℕ → ℕ → ℕ → Bool
unfolding can_retry
ready e now later pid = elim (get e.agents pid) [
  | none ↦ false
  | some s ↦ can_retry s e.config now later
]

unfoldable pub record_attempt : RestartEngine → ℕ → ℕ → RestartEngine
record_attempt e now pid = record e { agents = alter e.agents pid (state_record_attempt now) }

unfoldable pub mark_recovered : RestartEngine → ℕ → ℕ → RestartEngine
mark_recovered e now pid = record e {
  agents = alter e.agents pid (state_mark_recovered e.config now);
}

unfoldable pub attempt_count : RestartEngine → ℕ → ℕ
attempt_count e pid = elim (get e.agents pid) [ none ↦ 0 | some s ↦ s.attempt ]

-- `for pid in pids`; all the answers of the clock are taken as one.
unfoldable pub pending_in : RestartEngine → ℕ → List ℕ → List (ℕ × String)
unfolding ready
pending_in e now [] = []
pending_in e now (pid ∷ pids) =
    let rest = pending_in e now pids in
    if ready e now now pid
    then elim (get e.agents pid) [ none ↦ rest | some s ↦ (pid, s.name) ∷ rest ]
    else rest

unfoldable pub pending_restarts : RestartEngine → ℕ → List (ℕ × String)
unfolding pending_in
pending_restarts e now = pending_in e now (map (λ x. x.0) e.agents)
