-- ===== src/Reliability/Policy.antt =====
-- `PolicyEngine` of crates/reliability/src/policy.rs, and which action it chooses. `from_yaml` only
-- calls serde.
use text.Mathlib.Text.{◌==◌ as str_eq}
use omnisec.Prelude.{
  ℕ, ◌≡◌, String, Bool, true, false, ◌||◌, Option, none, some, List, [], ◌∷◌, leb, if◌then◌else◌,
  arith,
}
use omnisec.Prelude.Tables.{lookup, put, lookup-put}

pub data ActionType : Type 0 where
  alert restart_agent systemd_restart container_restart escalate_failure ignore : ActionType

pub record PolicyAction : Type 0 where
  pub action : ActionType
  pub max_retries : Option ℕ
  pub alert_channels : Option (List String)
  pub escalate_after : Option ℕ

pub record AgentPolicies : Type 0 where
  pub crash : PolicyAction
  pub hang : PolicyAction
  pub memory_leak : PolicyAction
  pub cpu_runaway : PolicyAction
  pub fd_exhaustion : PolicyAction
  pub thread_explosion : PolicyAction
  pub dependency_failure : PolicyAction

-- `PolicyConfig` has the one field `agent`.
pub record PolicyEngine : Type 0 where
  pub agent : AgentPolicies
  pub custom_policies : List (String × PolicyAction)

abbrev retrying : ℕ → ℕ → PolicyAction
retrying retries after = record {
  action = restart_agent;
  max_retries = some retries;
  alert_channels = some ("telegram" ∷ []);
  escalate_after = some after;
}

abbrev alerting : PolicyAction
alerting = record {
  action = alert;
  max_retries = none;
  alert_channels = some ("telegram" ∷ []);
  escalate_after = none;
}

unfoldable pub default_config : AgentPolicies
default_config = record {
  crash = retrying 3 5;
  hang = retrying 2 3;
  memory_leak = alerting;
  cpu_runaway = retrying 2 3;
  fd_exhaustion = alerting;
  thread_explosion = retrying 2 3;
  dependency_failure = record {
    action = escalate_failure;
    max_retries = none;
    alert_channels = some ("telegram" ∷ "email" ∷ []);
    escalate_after = some 1;
  };
}

unfoldable pub new_engine : AgentPolicies → PolicyEngine
new_engine config = record { agent = config; custom_policies = [] }

unfoldable pub get_action : PolicyEngine → String → PolicyAction
get_action e event_type =
    if str_eq event_type "crash"
    then e.agent.crash
    else if str_eq event_type "hang"
    then e.agent.hang
    else if str_eq event_type "memory_leak"
    then e.agent.memory_leak
    else if str_eq event_type "cpu_runaway"
    then e.agent.cpu_runaway
    else if str_eq event_type "fd_exhaustion"
    then e.agent.fd_exhaustion
    else if str_eq event_type "thread_explosion"
    then e.agent.thread_explosion
    else if str_eq event_type "dependency_failure"
    then e.agent.dependency_failure
    else (elim (lookup e.custom_policies event_type) [ none ↦ e.agent.crash | some a ↦ a ])

unfoldable pub set_custom_policy : PolicyEngine → String → PolicyAction → PolicyEngine
set_custom_policy e event_type action = record e {
  custom_policies = put e.custom_policies event_type action;
}

abbrev pub restarts : ActionType → Bool
restarts restart_agent = true
restarts systemd_restart = true
restarts container_restart = true
restarts alert = false
restarts escalate_failure = false
restarts ignore = false

abbrev pub alerts : ActionType → Bool
alerts alert = true
alerts escalate_failure = true
alerts restart_agent = false
alerts systemd_restart = false
alerts container_restart = false
alerts ignore = false

unfoldable pub should_restart : PolicyEngine → String → Bool
unfolding get_action
should_restart e event_type = restarts (get_action e event_type).action

unfoldable pub should_alert : PolicyEngine → String → Bool
unfolding get_action
should_alert e event_type =
    let action = get_action e event_type in
    alerts action.action || (elim action.alert_channels [ none ↦ false | some c ↦ true ])

unfoldable pub should_escalate : PolicyEngine → String → ℕ → Bool
unfolding get_action
should_escalate e event_type failure_count = elim (get_action e event_type).escalate_after [
  | none ↦ false
  | some after ↦ leb after failure_count
]

unfoldable pub get_max_retries : PolicyEngine → String → ℕ
unfolding get_action
get_max_retries e event_type = elim (get_action e event_type).max_retries [ none ↦ 0 | some n ↦ n ]

unfoldable pub get_alert_channels : PolicyEngine → String → List String
unfolding get_action
get_alert_channels e event_type = elim (get_action e event_type).alert_channels [
  | none ↦ []
  | some c ↦ c
]

-- The event types with a policy of their own in the configuration.
abbrev pub is_builtin : String → Bool
is_builtin s =
    str_eq s "crash"
    || str_eq s "hang"
    || str_eq s "memory_leak"
    || str_eq s "cpu_runaway"
    || str_eq s "fd_exhaustion"
    || str_eq s "thread_explosion"
    || str_eq s "dependency_failure"

-- A custom policy decides its event type, and leaves every other one as it was; a custom policy for
-- an event type that the configuration has changes nothing.
get_action-set_custom_policy :
    (e : PolicyEngine) (event_type : String) (action : PolicyAction) (other : String)
    → get_action (set_custom_policy e event_type action) other ≡ (
        if is_builtin other
        then get_action e other
        else if str_eq event_type other
        then action
        else get_action e other)
unfolding get_action set_custom_policy
get_action-set_custom_policy e event_type action other =
    ground (arith, lookup-put e.custom_policies event_type other action)
