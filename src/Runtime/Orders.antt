-- ===== src/Runtime/Orders.antt =====
-- What a run of decisions that `RuntimeManager::execute` of crates/runtime/src/lib.rs executes leaves of the
-- firewall rules and of the held processes, and which signals it sends.
use text.Mathlib.Text.{◌==◌ as str_eq}
use omnisec.Prelude.{
  ℕ, ◌≡◌, String, Bool, true, false, ◌&&◌, ◌||◌, Option, none, some, List, [], ◌∷◌, ◌++◌, any,
  if◌then◌else◌, ◌==◌,
}
use omnisec.Prelude.External.{Uuid, DateTime}
use omnisec.Decision.Types.{
  DecisionAction, allow, flag, block, restart, escalate, EnforcementDecision,
}
use omnisec.Runtime.Types.{RuntimeMode}
use omnisec.Runtime.Firewall.{Host, has_target}
use omnisec.Runtime.Process.{ContainmentState, Signals}
use omnisec.Runtime.Containment.{Call, quarantining, restarting, signals_of, state_in, next}
use omnisec.Runtime.Manager.{RuntimeManager, Executed, execute}

-- A decision, the ids that its execution takes, and its time.
abbrev pub Orders : Type 0
Orders = List (EnforcementDecision × (ℕ → Uuid) × DateTime)

-- The call of the containment engine that an action stands for, if any.
abbrev pub call_of : DecisionAction → ℕ → String → Option Call
call_of allow pid name = none
call_of flag pid name = none
call_of block pid name = none
call_of restart pid name = some (restarting pid)
call_of escalate pid name = some (quarantining pid name)

abbrev pub blocks : DecisionAction → Bool
blocks allow = false
blocks flag = false
blocks block = true
blocks restart = false
blocks escalate = true

abbrev pub names : String → Option String → Bool
names target none = false
names target (some dest) = str_eq dest target

-- The decision asks for a block of that destination.
abbrev pub asks_block : String → EnforcementDecision → Bool
asks_block target d = blocks d.action && names target d.context.destination

abbrev pub called : RuntimeMode → Option Call → Signals
called mode none = []
called mode (some c) = signals_of mode c

abbrev pub all_called : RuntimeMode → Orders → Signals
all_called mode [] = []
all_called mode (o ∷ os) =
    called mode (call_of o.0.action o.0.pid o.0.agent_name) ++ all_called mode os

abbrev pub moved_by : ℕ → Option ContainmentState → Option Call → ℕ → Option ContainmentState
moved_by q s none pid = s
moved_by q s (some c) pid = if pid == q then next s c else s

abbrev pub state_after : ℕ → Option ContainmentState → Orders → Option ContainmentState
state_after q s [] = s
state_after q s (o ∷ os) =
    state_after q (moved_by q s (call_of o.0.action o.0.pid o.0.agent_name) o.0.pid) os

abbrev pub has_rule : String → RuntimeManager → Bool
has_rule target m = any (has_target target) m.network.rules

-- What an execution of one decision does.
abbrev Enforced :
    EnforcementDecision → DecisionAction → RuntimeManager → RuntimeManager × Signals → Type 0
Enforced d a m r =
    (r.0.process.mode ≡ m.process.mode)
    × (r.1 ≡ called m.process.mode (call_of a d.pid d.agent_name))
    × ((target : String)
        → has_rule target r.0
          ≡ (has_rule target m || (blocks a && names target d.context.destination)))
    × ((q : ℕ)
        → state_in r.0.process.tracked q
          ≡ moved_by q (state_in m.process.tracked q) (call_of a d.pid d.agent_name) d.pid)

module _ (h : Host) (d : EnforcementDecision) (ids : ℕ → Uuid) (now : DateTime) where
  -- The part of an execution that the property is about.
  abbrev seen : Executed → RuntimeManager × Signals
  seen x = (x.0, x.2)

module _ (h : Host) where
  abbrev pub run : RuntimeManager → Orders → RuntimeManager × Signals
  run m [] = (m, [])
  run m (o ∷ os) =
      let (m', actions, signals, commands) = execute h o.0 o.1 o.2 m in
      let (m'', others) = run m' os in (m'', signals ++ others)
