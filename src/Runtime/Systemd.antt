-- ===== src/Runtime/Systemd.antt =====
-- `SystemdControlEngine` of crates/runtime/src/systemd.rs; the mode is that of the build. A method also
-- returns the `systemctl` calls that it makes, by their arguments; their answers it does not look at.
use omnisec.Prelude.{ℕ, String, false, true, List, [], ◌∷◌, ◌++◌, length}
use omnisec.Prelude.Texts.{concat}
use omnisec.Prelude.External.{Uuid, DateTime}
use omnisec.Runtime.Types.{RuntimeMode, native, simulated, RuntimeAction}

pub record SystemdAction : Type 0 where
  pub unit : String
  pub action : String
  pub result : String
  pub duration_ms : ℕ
  pub timestamp : DateTime

pub record SystemdEngine : Type 0 where
  pub actions : List SystemdAction
  pub mode : RuntimeMode

abbrev pub Step : Type 0
Step = SystemdEngine × RuntimeAction × List (List String)

-- `create_action` for the action type `systemd_<verb>`
unfoldable pub create_action : String → String → Uuid → DateTime → RuntimeAction
create_action verb target id now = record {
  id = id;
  action_type = concat ("systemd_" ∷ verb ∷ []);
  target = target;
  kernel_command = concat ("systemctl " ∷ verb ∷ " " ∷ target ∷ []);
  result = "Pending";
  duration_ms = 0;
  timestamp = now;
  verified = false;
  rolled_back = false;
}

unfoldable pub record_action : SystemdEngine → String → String → DateTime → SystemdEngine
record_action e unit action now = record e {
  actions =
      e.actions
      ++ record {
        unit = unit;
        action = action;
        result = "success";
        duration_ms = 0;
        timestamp = now;
      }
        ∷ [];
}

-- The result and the calls, by mode.
unfoldable pub answer :
    RuntimeMode → RuntimeAction → List (List String) → RuntimeAction × List (List String)
answer native action calls = (record action { result = "Applied"; verified = true }, calls)
answer simulated action calls = (record action { result = "Simulated"; verified = true }, [])

-- The match on the mode that the methods share.
unfoldable pub perform :
    SystemdEngine → String → String → String → List (List String) → Uuid → DateTime → Step
unfolding create_action record_action answer
perform e unit verb target calls id now =
    let (action, made) = answer e.mode (create_action verb target id now) calls in
    (record_action e unit verb now, action, made)

unfoldable pub restart_unit : SystemdEngine → String → Uuid → DateTime → Step
unfolding perform
restart_unit e unit id now = perform e unit "restart" unit (("restart" ∷ unit ∷ []) ∷ []) id now

unfoldable pub stop_unit : SystemdEngine → String → Uuid → DateTime → Step
unfolding perform
stop_unit e unit id now = perform e unit "stop" unit (("stop" ∷ unit ∷ []) ∷ []) id now

unfoldable pub disable_unit : SystemdEngine → String → Uuid → DateTime → Step
unfolding perform
disable_unit e unit id now = perform e unit "disable" unit (("disable" ∷ unit ∷ []) ∷ []) id now

unfoldable pub quarantine_unit : SystemdEngine → String → Uuid → DateTime → Step
unfolding perform
quarantine_unit e unit id now =
    perform e unit "quarantine" unit
      (("stop" ∷ unit ∷ []) ∷ ("disable" ∷ unit ∷ []) ∷ ("mask" ∷ unit ∷ []) ∷ []) id now

unfoldable pub isolate_unit : SystemdEngine → String → String → Uuid → DateTime → Step
unfolding perform
isolate_unit e unit slice id now =
    perform e unit "isolate" (concat (unit ∷ " → " ∷ slice ∷ []))
      (("set-property" ∷ unit ∷ concat ("Slice=" ∷ slice ∷ []) ∷ []) ∷ []) id now

unfoldable pub action_count : SystemdEngine → ℕ
action_count e = length e.actions
