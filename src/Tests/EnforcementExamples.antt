-- ===== src/Tests/EnforcementExamples.antt =====
-- Examples for logical enforcement.
use omnisec.Prelude.{◌≤◌, ◌≡◌, refl, some, none, List, [], ◌∷◌, true, String}
use omnisec.Prelude.Texts.{contains}
use omnisec.Enforcement.Network.{new, is_blocked, enforce_network}
use omnisec.Enforcement.Process
use omnisec.Enforcement.Process.{check_executable}
use omnisec.Enforcement.FileAccess
use omnisec.Enforcement.FileAccess.{
  FileAccessEngine, is_sensitive, check_file_access, violation_count,
}
use omnisec.Enforcement.Manager
use omnisec.Enforcement.Manager.{
  EnforcementManager, get_open_incidents, resolve_incident, incident_count, get_stats, has_id,
  is_open,
}
use omnisec.Enforcement.Blocking.{is_blocked-enforce_network}
use omnisec.Enforcement.Incidents.{Call, execute_call, resolve_call, run, run-counts}
use omnisec.Tests.Fixtures.{exact_clock, decision}

is_blocked-enforce_network_example :
    is_blocked (enforce_network exact_clock new decision 1 0).0 "data-exfil.com" 10 ≡ true
is_blocked-enforce_network_example =
    is_blocked-enforce_network exact_clock new decision 1 0 10 "data-exfil.com"

abbrev same_case : String → String
same_case s = s

nmap_is_blocked : (check_executable same_case Process.new 7 "agent" "nmap" 0).1 ≡ some "BLOCK"
unfolding check_executable Process.new contains
nmap_is_blocked = refl

abbrev files : FileAccessEngine
files = FileAccess.new (some "agent")

abbrev calls : List Call
calls = execute_call decision 1 2 0 ∷ resolve_call 2 "done" 5 ∷ execute_call decision 3 4 6 ∷ []

abbrev manager : EnforcementManager
manager = run exact_clock (Manager.new none) calls

run-counts_example :
    let stats = get_stats manager in
    (stats.total_incidents ≡ stats.total_actions) × (stats.open_incidents ≤ stats.total_incidents)
run-counts_example = run-counts exact_clock none calls
