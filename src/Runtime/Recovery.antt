-- ===== src/Runtime/Recovery.antt =====
-- `RecoveryEngine` of crates/runtime/src/recovery.rs. Each rollback takes its fresh id from a
-- sequence.
use text.Mathlib.Text.{◌==◌ as str_eq}
use omnisec.Prelude.{
  ℕ, ◌+◌, String, Bool, true, false, not, ◌&&◌, ◌||◌, Option, none, some, List, [], ◌∷◌, ◌++◌, map,
  ltb, if◌then◌else◌, length, retain, update_first,
}
use omnisec.Prelude.Texts.{concat}
use omnisec.Prelude.External.{Uuid, DateTime, Chrono}
use omnisec.Runtime.Types.{RuntimeMode, RuntimeAction}

pub record RecoverableAction : Type 0 where
  pub id : Uuid
  pub action_type : String
  pub target : String
  pub expires_at : Option DateTime
  pub rollback_action : String
  pub rolled_back : Bool
  pub created_at : DateTime

pub record RecoveryEngine : Type 0 where
  pub recoverable : List RecoverableAction
  pub mode : RuntimeMode

module _ (c : Chrono) where
  unfoldable pub register :
      RecoveryEngine → Uuid → String → String → Option ℕ → String → DateTime → RecoveryEngine
  register e action_id action_type target duration_secs rollback_action now = record e {
    recoverable =
        e.recoverable
        ++ record {
          id = action_id;
          action_type = action_type;
          target = target;
          expires_at = elim duration_secs [ none ↦ none | some s ↦ some (c.after now s) ];
          rollback_action = rollback_action;
          rolled_back = false;
          created_at = now;
        }
          ∷ [];
  }

-- The tests of `check_expired` on one action.
abbrev pub has_expired : DateTime → RecoverableAction → Bool
has_expired now a = not a.rolled_back && (elim a.expires_at [ none ↦ false | some e ↦ ltb e now ])

unfoldable pub check_expired : RecoveryEngine → DateTime → List RecoverableAction
check_expired e now = retain (has_expired now) e.recoverable

unfoldable pub rollback_name : String → String
rollback_name action_type =
    if str_eq action_type "nftables_block_domain"
      || str_eq action_type "nftables_block_ip"
      || str_eq action_type "nftables_block_cidr"
    then "nftables_unblock"
    else if str_eq action_type "cgroup_throttle"
    then "cgroup_release"
    else if str_eq action_type "process_suspend"
    then "process_resume"
    else if str_eq action_type "process_quarantine"
    then "process_resume"
    else if str_eq action_type "systemd_stop"
        || str_eq action_type "systemd_disable"
        || str_eq action_type "systemd_quarantine"
    then "systemd_restart"
    else "unknown_rollback"

unfoldable pub rollback : String → String → Uuid → DateTime → RuntimeAction
unfolding rollback_name
rollback action_type target id now = record {
  id = id;
  action_type = concat ("rollback_" ∷ action_type ∷ []);
  target = target;
  kernel_command = concat ("rollback " ∷ action_type ∷ " → " ∷ rollback_name action_type ∷ []);
  result = "RolledBack";
  duration_ms = 0;
  timestamp = now;
  verified = true;
  rolled_back = true;
}

-- The pair by which `auto_recover` finds an action again.
abbrev pub Key : Type 0
Key = String × String

abbrev pub key_of : RecoverableAction → Key
key_of a = (a.action_type, a.target)

abbrev pub has_key : Key → RecoverableAction → Bool
has_key k a = str_eq a.action_type k.0 && str_eq a.target k.1

abbrev pub mark : RecoverableAction → RecoverableAction
mark a = record a { rolled_back = true }

-- The loop of `auto_recover`.
unfoldable pub recover_all :
    (ℕ → Uuid)
    → DateTime
    → ℕ
    → List RecoverableAction
    → List Key
    → List RecoverableAction × List RuntimeAction
unfolding rollback
recover_all ids now i actions [] = (actions, [])
recover_all ids now i actions (k ∷ ks) =
    let (actions', recoveries) =
      recover_all ids now (i + 1) (update_first (has_key k) mark actions) ks in
    (actions', rollback k.0 k.1 (ids i) now ∷ recoveries)

unfoldable pub auto_recover :
    RecoveryEngine → (ℕ → Uuid) → DateTime → RecoveryEngine × List RuntimeAction
unfolding recover_all check_expired
auto_recover e ids now =
    let (actions, recoveries) =
      recover_all ids now 0 e.recoverable (map key_of (check_expired e now)) in
    (record e { recoverable = actions }, recoveries)

unfoldable pub get_pending_recoveries : RecoveryEngine → List RecoverableAction
get_pending_recoveries e = retain (λ a. not a.rolled_back) e.recoverable

unfoldable pub recovery_count : RecoveryEngine → ℕ
recovery_count e = length e.recoverable
