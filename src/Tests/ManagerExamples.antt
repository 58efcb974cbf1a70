-- ===== src/Tests/ManagerExamples.antt =====
-- Examples for the runtime manager, the audit trail and the resource engine.
use omnisec.Prelude.{◌+◌, ◌≡◌, refl, String, true, false, none, some, [], ◌∷◌, not, retain}
use omnisec.Decision.Types.{EnforcementDecision, escalate, restart}
use omnisec.Runtime.Types.{native}
use omnisec.Runtime.Firewall.{Host}
use omnisec.Runtime.Audit.{KernelAuditTrail}
use omnisec.Runtime.Manager.{new_manager, execute}
use omnisec.Runtime.Execution.{history, extend, execute_audited}
use omnisec.Runtime.Process.{sigstop, sigkill, restarted}
use omnisec.Runtime.Orders.{Orders, all_called, state_after}
use omnisec.Runtime.Resource.{ResourceEngine, throttle, release, get_active_cgroups, limits}
use omnisec.Runtime.Limits.{release-throttle}
use omnisec.Tests.Fixtures.{decision}

abbrev trail : KernelAuditTrail
trail = record {
  entries =
      record {
        id = 1;
        action_type = "process_restart";
        target = "PID:7";
        kernel_command = "process_restart PID:7";
        result = "Restarted";
        duration_ms = 0;
        verified = true;
        rolled_back = false;
        rollback_time = none;
        verification_method = "kernel_confirm";
        timestamp = 0;
      }
      ∷ [];
}

abbrev host : Host
host = record { resolve = λ s. "1.1.1.1" ∷ []; accepts = λ s. true }

abbrev escalated : EnforcementDecision
escalated = record decision { action = escalate }

execute_audited_example :
    history (execute host escalated (λ i. i) 10 (new_manager native)).0
    ≡ extend
        (history (new_manager native))
        (execute host escalated (λ i. i) 10 (new_manager native)).1
execute_audited_example = execute_audited host escalated (λ i. i) 10 (new_manager native)

-- The process is quarantined before it is restarted.
abbrev orders : Orders
orders = (escalated, (λ i. i), 10) ∷ (record decision { action = restart }, (λ i. i + 10), 20) ∷ []

-- What was called for.
called_run : all_called native orders ≡ (decision.pid, sigstop) ∷ (decision.pid, sigkill) ∷ []
called_run = refl

state_run : state_after decision.pid none orders ≡ some restarted
state_run = refl

abbrev resources : ResourceEngine
resources = record { cgroups = []; mode = native }

release-throttle_example :
    (get_active_cgroups (release (throttle true resources 7 "agent" 25 none 1 10).0 "agent" 1 10).0
      ≡ retain (λ l. not (limits "agent" l)) (get_active_cgroups resources))
    × ((name : String)
        → (throttle true resources 7 "agent" 25 none 1 10).2
          ≡ (throttle true resources 7 name 25 none 1 10).2)
release-throttle_example = release-throttle true resources 7 "agent" 25 none 1 10
