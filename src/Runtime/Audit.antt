-- ===== src/Runtime/Audit.antt =====
-- `KernelAuditTrail` of crates/runtime/src/audit.rs.
use text.Mathlib.Text.{◌==◌ as str_eq}
use omnisec.Prelude.{
  ℕ, String, Bool, true, false, ◌==◌, Option, none, some, List, [], ◌∷◌, ◌++◌, if◌then◌else◌, any,
  length, retain, update_first,
}
use omnisec.Prelude.Texts.{concat}
use omnisec.Prelude.External.{Uuid, DateTime}

pub record KernelAuditEntry : Type 0 where
  pub id : Uuid
  pub action_type : String
  pub target : String
  pub kernel_command : String
  pub result : String
  pub duration_ms : ℕ
  pub verified : Bool
  pub rolled_back : Bool
  pub rollback_time : Option DateTime
  pub verification_method : String
  pub timestamp : DateTime

pub record KernelAuditTrail : Type 0 where
  pub entries : List KernelAuditEntry

unfoldable pub empty_trail : KernelAuditTrail
empty_trail = record { entries = [] }

-- `record`, with the fresh id `id`, which it answers.
unfoldable pub record_entry :
    KernelAuditTrail
    → String
    → String
    → String
    → ℕ
    → Bool
    → Uuid
    → DateTime
    → KernelAuditTrail × Uuid
record_entry t action_type target result duration_ms verified id now = (
  record t {
    entries =
        t.entries
        ++ record {
          id = id;
          action_type = action_type;
          target = target;
          kernel_command = concat (action_type ∷ " " ∷ target ∷ []);
          result = result;
          duration_ms = duration_ms;
          verified = verified;
          rolled_back = false;
          rollback_time = none;
          verification_method = if verified then "kernel_confirm" else "pending";
          timestamp = now;
        }
          ∷ [];
  },
  id,
)

abbrev pub has_id : Uuid → KernelAuditEntry → Bool
has_id id e = e.id == id

abbrev pub roll_back : DateTime → KernelAuditEntry → KernelAuditEntry
roll_back now e = record e { rolled_back = true; rollback_time = some now }

unfoldable pub mark_rolled_back : KernelAuditTrail → Uuid → DateTime → KernelAuditTrail × Bool
mark_rolled_back t entry_id now =
    if any (has_id entry_id) t.entries
    then (record { entries = update_first (has_id entry_id) (roll_back now) t.entries }, true)
    else (t, false)

unfoldable pub get_entries_for_target : KernelAuditTrail → String → List KernelAuditEntry
get_entries_for_target t target = retain (λ e. str_eq e.target target) t.entries

unfoldable pub get_verified_entries : KernelAuditTrail → List KernelAuditEntry
get_verified_entries t = retain (λ e. e.verified) t.entries

unfoldable pub get_rolled_back_entries : KernelAuditTrail → List KernelAuditEntry
get_rolled_back_entries t = retain (λ e. e.rolled_back) t.entries

unfoldable pub entry_count : KernelAuditTrail → ℕ
entry_count t = length t.entries
