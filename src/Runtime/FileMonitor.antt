-- ===== src/Runtime/FileMonitor.antt =====
-- `FileMonitorEngine` of crates/runtime/src/file_monitor.rs. The inotify thread is outside: what it
-- has put in the channel is an argument of `drain_events`, and `str::to_lowercase` is a parameter.
use omnisec.Prelude.{
  ℕ, String, Bool, true, false, Option, none, some, List, [], ◌∷◌, ◌++◌, if◌then◌else◌, any, length,
}
use omnisec.Prelude.Texts.{has_part}
use omnisec.Prelude.External.{Uuid, DateTime}
use omnisec.Runtime.Types.{RuntimeMode, native, simulated}

pub record FileAccessEvent : Type 0 where
  pub id : Uuid
  pub pid : ℕ
  pub agent_name : String
  pub file_path : String
  pub action : String
  pub timestamp : DateTime
  pub real_event : Bool

abbrev pub sensitive_paths : List String
sensitive_paths =
    "/etc/passwd" ∷ "/etc/shadow" ∷ "/etc/sudoers" ∷ "/etc/ssh/sshd_config" ∷ "/root/.ssh"
    ∷ "/etc/kubernetes" ∷ "/var/log/auth.log" ∷ "/var/log/secure" ∷ []

-- `rx` says whether there is a channel from the inotify thread.
pub record FileMonitorEngine : Type 0 where
  pub monitored_paths : List String
  pub mode : RuntimeMode
  pub rx : Bool
  pub events : List FileAccessEvent

unfoldable pub new_monitor : RuntimeMode → FileMonitorEngine
new_monitor mode = record {
  monitored_paths = sensitive_paths;
  mode = mode;
  rx = false;
  events = [];
}

abbrev pub is_native : RuntimeMode → Bool
is_native native = true
is_native simulated = false

-- In native mode the thread is started with a new channel.
unfoldable pub start_monitoring : FileMonitorEngine → FileMonitorEngine
start_monitoring e = if is_native e.mode then record e { rx = true } else e

unfoldable pub drain_events :
    FileMonitorEngine → List FileAccessEvent → FileMonitorEngine × List FileAccessEvent
drain_events e received =
    (record e { events = [] }, if e.rx then e.events ++ received else e.events)

module _ (to_lowercase : String → String) where
  unfoldable pub check_access :
      FileMonitorEngine
      → ℕ
      → String
      → String
      → Uuid
      → DateTime
      → FileMonitorEngine × Option FileAccessEvent
  check_access e pid agent_name file_path id now =
      let event : FileAccessEvent = record {
        id = id;
        pid = pid;
        agent_name = agent_name;
        file_path = file_path;
        action = "FLAG";
        timestamp = now;
        real_event = false;
      } in
      if any (λ sp. has_part (to_lowercase file_path) (to_lowercase sp)) e.monitored_paths
      then (record e { events = e.events ++ event ∷ [] }, some event)
      else (e, none)

unfoldable pub add_monitored_path : FileMonitorEngine → String → FileMonitorEngine
add_monitored_path e path = record e { monitored_paths = e.monitored_paths ++ path ∷ [] }

unfoldable pub is_monitored : FileMonitorEngine → String → Bool
is_monitored e file_path = any (λ sp. has_part file_path sp) e.monitored_paths

unfoldable pub monitor_count : FileMonitorEngine → ℕ
monitor_count e = length e.monitored_paths

unfoldable pub event_count : FileMonitorEngine → ℕ
event_count e = length e.events
