-- ===== src/Enforcement/Process.antt =====
-- `ProcessEnforcementEngine` of crates/enforcement/src/lib.rs. `str::to_lowercase`, which follows
-- the tables of Unicode, is a parameter.
use omnisec.Prelude.{ℕ, String, Bool, not, Option, none, some, List, [], ◌∷◌, ◌++◌, if◌then◌else◌}
use omnisec.Prelude.Sort.{sort_by}
use omnisec.Prelude.Texts.{StringSet, contains, collect}
use omnisec.Prelude.External.{DateTime}
use omnisec.Enforcement.Network.{or_default, text_le}

pub record FlaggedProcess : Type 0 where
  pub pid : ℕ
  pub agent_name : String
  pub executable : String
  pub action : String
  pub timestamp : DateTime

pub record ProcessEngine : Type 0 where
  pub known_executables : StringSet
  pub blocked_executables : StringSet
  pub flagged_processes : List FlaggedProcess

unfoldable pub default_known_executables : StringSet
unfolding collect
default_known_executables = collect (
    "python" ∷ "python3" ∷ "node" ∷ "npm" ∷ "npx" ∷ "bun" ∷ "deno" ∷ "claude" ∷ "code" ∷ "bash"
    ∷ "sh" ∷ "zsh" ∷ "git" ∷ "curl" ∷ "wget" ∷ "cargo" ∷ "rustc" ∷ "gcc" ∷ "make" ∷ "docker"
    ∷ "nvim" ∷ "vim" ∷ [])

unfoldable pub default_blocked_executables : StringSet
unfolding collect
default_blocked_executables = collect (
    "nc" ∷ "ncat" ∷ "netcat" ∷ "tcpdump" ∷ "tshark" ∷ "nmap" ∷ "socat" ∷ "proxychains" ∷ "tor"
    ∷ "miner" ∷ "xmrig" ∷ [])

unfoldable pub new : ProcessEngine
unfolding default_known_executables default_blocked_executables
new = record {
  known_executables = default_known_executables;
  blocked_executables = default_blocked_executables;
  flagged_processes = [];
}

unfoldable pub with_lists : List String → List String → ProcessEngine
unfolding default_known_executables default_blocked_executables
with_lists known blocked = record {
  known_executables = or_default known default_known_executables;
  blocked_executables = or_default blocked default_blocked_executables;
  flagged_processes = [];
}

abbrev pub flag_process : ProcessEngine → ℕ → String → String → String → DateTime → ProcessEngine
flag_process p pid agent_name executable action now = record p {
  flagged_processes =
      p.flagged_processes
      ++ record {
        pid = pid;
        agent_name = agent_name;
        executable = executable;
        action = action;
        timestamp = now;
      }
        ∷ [];
}

module _ (to_lowercase : String → String) where
  unfoldable pub check_executable :
      ProcessEngine → ℕ → String → String → DateTime → ProcessEngine × Option String
  check_executable p pid agent_name executable now =
      let exe_lower = to_lowercase executable in
      if contains p.blocked_executables exe_lower
      then (flag_process p pid agent_name exe_lower "BLOCK" now, some "BLOCK")
      else if not (contains p.known_executables exe_lower)
      then (flag_process p pid agent_name exe_lower "FLAG" now, some "FLAG")
      else (p, none)

  unfoldable pub is_known_executable : ProcessEngine → String → Bool
  is_known_executable p executable = contains p.known_executables (to_lowercase executable)

unfoldable pub get_known_executables : ProcessEngine → List String
get_known_executables p = sort_by text_le p.known_executables

unfoldable pub get_blocked_executables : ProcessEngine → List String
get_blocked_executables p = sort_by text_le p.blocked_executables
