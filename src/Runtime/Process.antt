-- ===== src/Runtime/Process.antt =====
-- `ProcessContainmentEngine` of crates/runtime/src/process.rs. A method also returns the signals that
-- it sends, each to a process. The mode is that of the build (`detect_runtime_mode` of
-- crates/runtime/src/lib.rs): native for Linux and simulated elsewhere, where the code under
-- `cfg(target_os = "linux")` does not exist.
use omnisec.Prelude.{
  ℕ, String, Bool, true, false, List, [], ◌∷◌, ◌++◌, ◌==◌, length, retain, update_first,
}
use omnisec.Prelude.Texts.{concat}
use omnisec.Prelude.Decimal.{decimal}
use omnisec.Prelude.External.{Uuid, DateTime}
use omnisec.Runtime.Types.{RuntimeMode, native, simulated, RuntimeAction}

pub data ContainmentState : Type 0 where
  suspended running killed restarted quarantined : ContainmentState

pub record ContainedProcess : Type 0 where
  pub pid : ℕ
  pub agent_name : String
  pub state : ContainmentState
  pub started_at : DateTime
  pub duration_secs : ℕ

pub record ContainmentEngine : Type 0 where
  pub tracked : List ContainedProcess
  pub mode : RuntimeMode

pub data Signal : Type 0 where
  sigstop sigcont sigkill : Signal

abbrev pub Signals : Type 0
Signals = List (ℕ × Signal)

abbrev pub Step : Type 0
Step = ContainmentEngine × RuntimeAction × Signals

-- `create_action` for the action type `process_<verb>`: its command is the type with `process_`
-- replaced by `kill -SIG`.
unfoldable pub create_action : String → ℕ → Uuid → DateTime → RuntimeAction
unfolding decimal
create_action verb pid id now = record {
  id = id;
  action_type = concat ("process_" ∷ verb ∷ []);
  target = concat ("PID:" ∷ decimal pid ∷ []);
  kernel_command = concat ("kill -SIG" ∷ verb ∷ " " ∷ "PID:" ∷ decimal pid ∷ []);
  result = "Pending";
  duration_ms = 0;
  timestamp = now;
  verified = false;
  rolled_back = false;
}

unfoldable pub track :
    ContainmentEngine → ℕ → String → ContainmentState → DateTime → ContainmentEngine
track e pid agent_name state now = record e {
  tracked =
      e.tracked
      ++ record {
        pid = pid;
        agent_name = agent_name;
        state = state;
        started_at = now;
        duration_secs = 0;
      }
        ∷ [];
}

abbrev pub has_pid : ℕ → ContainedProcess → Bool
has_pid pid p = p.pid == pid

abbrev pub put_state : ContainmentState → ContainedProcess → ContainedProcess
put_state state p = record p { state = state }

unfoldable pub update_state : ContainmentEngine → ℕ → ContainmentState → ContainmentEngine
update_state e pid state = record e {
  tracked = update_first (has_pid pid) (put_state state) e.tracked;
}

-- `libc::kill` under `cfg(target_os = "linux")`
unfoldable pub send : RuntimeMode → ℕ → Signal → Signals
send native pid signal = (pid, signal) ∷ []
send simulated pid signal = []

-- The action with its result, and the signal.
unfoldable pub answer : RuntimeMode → RuntimeAction → String → ℕ → Signal → RuntimeAction × Signals
unfolding send
answer native action result pid signal =
    (record action { result = result; verified = true }, send native pid signal)
answer simulated action result pid signal =
    (record action { result = "Simulated"; verified = true }, send simulated pid signal)

unfoldable pub suspend : ContainmentEngine → ℕ → String → Uuid → DateTime → Step
unfolding create_action track answer
suspend e pid agent_name id now =
    let (action, signals) =
      answer e.mode (create_action "suspend" pid id now) "Suspended" pid sigstop in
    (track e pid agent_name suspended now, action, signals)

unfoldable pub resume : ContainmentEngine → ℕ → Uuid → DateTime → Step
unfolding create_action update_state answer
resume e pid id now =
    let (action, signals) =
      answer e.mode (create_action "resume" pid id now) "Resumed" pid sigcont in
    (update_state e pid running, action, signals)

unfoldable pub kill : ContainmentEngine → ℕ → Uuid → DateTime → Step
unfolding create_action update_state answer
kill e pid id now =
    let (action, signals) = answer e.mode (create_action "kill" pid id now) "Killed" pid sigkill in
    (update_state e pid killed, action, signals)

unfoldable pub restart : ContainmentEngine → ℕ → Uuid → DateTime → Step
unfolding create_action update_state answer
restart e pid id now =
    let (action, signals) =
      answer e.mode (create_action "restart" pid id now) "Restarted" pid sigkill in
    (update_state e pid restarted, action, signals)

-- The answer is the same in either build.
unfoldable pub quarantine : ContainmentEngine → ℕ → String → Uuid → DateTime → Step
unfolding create_action track send
quarantine e pid agent_name id now = (
  track e pid agent_name quarantined now,
  record (create_action "quarantine" pid id now) {
    result = "Quarantined";
    kernel_command =
        concat ("kill -SIGSTOP " ∷ decimal pid ∷ "; cgroup isolate " ∷ decimal pid ∷ []);
    verified = true;
  },
  send e.mode pid sigstop,
)

unfoldable pub contained_count : ContainmentEngine → ℕ
contained_count e = length e.tracked

abbrev pub is_quarantined : ContainmentState → Bool
is_quarantined quarantined = true
is_quarantined suspended = false
is_quarantined running = false
is_quarantined killed = false
is_quarantined restarted = false

unfoldable pub quarantined_count : ContainmentEngine → ℕ
quarantined_count e = length (retain (λ p. is_quarantined p.state) e.tracked)
