-- ===== src/Identity/Types.antt =====
-- The records of crates/identity/src/lib.rs. A `Uuid` is a number, and so is an instant.
use omnisec.Prelude.{
  ℕ, ◌^◌, String, Bool, Option, List, [], any, ◌==◌, if◌then◌else◌, ◌∷◌, retain, not,
}
use omnisec.Prelude.Maps.{NatMap}

pub record AgentRuntimeIdentity : Type 0 where
  pub agent_id : ℕ
  pub pid : ℕ
  pub ppid : ℕ
  pub agent_name : String
  pub comm : String
  pub executable_path : Option String
  pub process_tree_depth : ℕ
  pub parent_agent_id : Option ℕ
  pub child_pids : List ℕ
  pub first_seen : ℕ
  pub last_seen : ℕ
  pub is_child_process : Bool
  pub is_orphan : Bool
  pub version : ℕ
  pub framework : Option String

pub record ProcessTreeNode : Type 0 where
  pub pid : ℕ
  pub ppid : ℕ
  pub agent_id : ℕ
  pub children : List ℕ
  pub is_agent : Bool
  pub discovered_at : ℕ

-- `next_id` is never read.
pub record AgentIdentityEngine : Type 0 where
  pub pid_map : NatMap ℕ
  pub identities : NatMap AgentRuntimeIdentity
  pub process_tree : NatMap ProcessTreeNode
  pub child_agent_map : NatMap ℕ
  pub agent_pid_history : NatMap (List ℕ)
  pub next_id : ℕ
  pub known_agent_pids : List ℕ

unfoldable pub new_identity_engine : AgentIdentityEngine
new_identity_engine = record {
  pid_map = [];
  identities = [];
  process_tree = [];
  child_agent_map = [];
  agent_pid_history = [];
  next_id = 1;
  known_agent_pids = [];
}

-- `HashSet<u32>`, a list without repetitions.
unfoldable pub add_pid : ℕ → List ℕ → List ℕ
add_pid pid pids = if any (λ p. p == pid) pids then pids else pid ∷ pids

unfoldable pub drop_pid : ℕ → List ℕ → List ℕ
drop_pid pid pids = retain (λ p. not (p == pid)) pids

abbrev pub u32_mod : ℕ
u32_mod = 2 ^ 32
