-- ===== src/Identity/Engine.antt =====
-- The operations of `AgentIdentityEngine` of crates/identity/src/lib.rs. `fresh` is what `Uuid::new_v4`
-- answers, `now` what `Utc::now` answers.
use omnisec.Prelude.{
  ℕ, ◌+◌, ◌%◌, String, Bool, true, false, Option, none, some, List, [], ◌∷◌, ◌++◌, map, any, ◌==◌,
  length, if◌then◌else◌, ltb,
}
use omnisec.Prelude.Texts.{concat}
use omnisec.Prelude.Decimal.{decimal}
use omnisec.Prelude.Maps.{get, put, alter, put_new}
use omnisec.Identity.Types.{
  AgentRuntimeIdentity, ProcessTreeNode, AgentIdentityEngine, add_pid, drop_pid, u32_mod,
}

unfoldable pub resolve_pid : AgentIdentityEngine → ℕ → Option AgentRuntimeIdentity
resolve_pid e pid = elim (get e.pid_map pid) [ none ↦ none | some id ↦ get e.identities id ]

unfoldable pub get_identity : AgentIdentityEngine → ℕ → Option AgentRuntimeIdentity
get_identity e id = get e.identities id

abbrev pub new_node : ℕ → ℕ → ℕ → Bool → ℕ → ProcessTreeNode
new_node pid ppid id is_agent now = record {
  pid = pid;
  ppid = ppid;
  agent_id = id;
  children = [];
  is_agent = is_agent;
  discovered_at = now;
}

unfoldable pub update_process_tree :
    AgentIdentityEngine → ℕ → ℕ → ℕ → Bool → ℕ → AgentIdentityEngine
unfolding put_new alter add_pid
update_process_tree e pid ppid id is_agent now =
    let tree =
      alter (put_new e.process_tree pid (new_node pid ppid id is_agent now)) pid
        (λ n. record n { ppid = ppid; is_agent = is_agent }) in
    record e {
      process_tree =
          if ltb 0 ppid
          then alter (put_new tree ppid (new_node ppid 0 id false now)) ppid
              (λ n. record n { children = add_pid pid n.children })
          else tree;
    }

-- The record that a new agent gets, as a root or as the child of `parent`.
abbrev pub root_identity : ℕ → ℕ → ℕ → ℕ → String → String → Option String → AgentRuntimeIdentity
root_identity fresh now pid ppid name comm framework = record {
  agent_id = fresh;
  pid = pid;
  ppid = ppid;
  agent_name = name;
  comm = comm;
  executable_path = none;
  process_tree_depth = 0;
  parent_agent_id = none;
  child_pids = [];
  first_seen = now;
  last_seen = now;
  is_child_process = false;
  is_orphan = false;
  version = 1;
  framework = framework;
}

abbrev pub child_identity :
    ℕ
    → ℕ
    → ℕ
    → ℕ
    → String
    → String
    → Option String
    → ℕ
    → ℕ
    → ℕ
    → Option String
    → AgentRuntimeIdentity
child_identity fresh now pid ppid name comm path parent_id parent_depth version framework = record {
  agent_id = fresh;
  pid = pid;
  ppid = ppid;
  agent_name = name;
  comm = comm;
  executable_path = path;
  process_tree_depth = (parent_depth + 1) % u32_mod;
  parent_agent_id = some parent_id;
  child_pids = [];
  first_seen = now;
  last_seen = now;
  is_child_process = true;
  is_orphan = false;
  version = version;
  framework = framework;
}

-- `format!("{}-child-{}", parent_name, pid)`
abbrev pub child_name : String → ℕ → String
child_name parent pid = concat (parent ∷ "-child-" ∷ decimal pid ∷ [])

abbrev pub push_child : ℕ → AgentRuntimeIdentity → AgentRuntimeIdentity
push_child pid r = record r { child_pids = r.child_pids ++ (pid ∷ []) }

-- A new child agent enters the maps.
abbrev pub insert_child : AgentIdentityEngine → ℕ → ℕ → AgentRuntimeIdentity → AgentIdentityEngine
insert_child e pid parent_id r = record e {
  child_agent_map = put e.child_agent_map pid parent_id;
  pid_map = put e.pid_map pid r.agent_id;
  identities = put e.identities r.agent_id r;
}

abbrev pub know : AgentIdentityEngine → ℕ → AgentIdentityEngine
know e pid = record e { known_agent_pids = add_pid pid e.known_agent_pids }

module _ (fresh now : ℕ) where
  -- The agent is new: a child of the agent that its parent process belongs to, or a root.
  unfoldable pub register_new :
      AgentIdentityEngine
      → ℕ
      → ℕ
      → String
      → String
      → Option String
      → AgentIdentityEngine × AgentRuntimeIdentity
  unfolding resolve_pid update_process_tree add_pid
  register_new e pid ppid name comm framework = elim (get e.pid_map ppid) [
    | none ↦ register_root
    | some parent_id ↦ elim (get e.identities parent_id) [
      | none ↦ register_root
      | some parent ↦
          let r =
            child_identity fresh now pid ppid name comm none parent_id parent.process_tree_depth 1
              framework in
          let e' = record e { identities = alter e.identities parent_id (push_child pid) } in
          (
            know (update_process_tree (insert_child e' pid parent_id r) pid ppid fresh true now)
                pid,
            r,
          )
    ]
  ]
    where
      register_root : AgentIdentityEngine × AgentRuntimeIdentity
      register_root =
          let r = root_identity fresh now pid ppid name comm framework in
          let e' = record e {
            pid_map = put e.pid_map pid fresh;
            identities = put e.identities fresh r;
            agent_pid_history = put e.agent_pid_history fresh (pid ∷ []);
          } in
          (know (update_process_tree e' pid ppid fresh true now) pid, r)

  -- The answer is a copy that is made before the framework is replaced.
  unfoldable pub register_agent :
      AgentIdentityEngine
      → ℕ
      → ℕ
      → String
      → String
      → Option String
      → AgentIdentityEngine × AgentRuntimeIdentity
  unfolding resolve_pid register_new
  register_agent e pid ppid name comm framework = elim (get e.pid_map pid) [
    | none ↦ register_new e pid ppid name comm framework
    | some id ↦ elim (get e.identities id) [
      | none ↦ register_new e pid ppid name comm framework
      | some r ↦
          let result = record r { ppid = ppid; last_seen = now } in
          let e' = record e {
            identities =
                alter e.identities id
                  (λ x. record x { ppid = ppid; last_seen = now; framework = framework });
          } in
          (know (update_process_tree e' pid ppid result.agent_id true now) pid, result)
    ]
  ]

  -- `record_exec` where the process is not known: a child, if its parent process belongs to an agent.
  unfoldable pub exec_new :
      AgentIdentityEngine
      → ℕ
      → ℕ
      → String
      → String
      → AgentIdentityEngine × Option AgentRuntimeIdentity
  unfolding update_process_tree
  exec_new e pid ppid comm filename = elim (get e.pid_map ppid) [
    | none ↦ (e, none)
    | some parent_id ↦ elim (get e.identities parent_id) [
      | none ↦ (e, none)
      | some parent ↦
          let r =
            child_identity fresh now pid ppid (child_name parent.agent_name pid) comm
              (some filename) parent_id parent.process_tree_depth parent.version parent.framework in
          (update_process_tree (insert_child e pid parent_id r) pid ppid fresh true now, some r)
    ]
  ]

  abbrev pub exec_update : String → String → AgentRuntimeIdentity → AgentRuntimeIdentity
  exec_update comm filename x = record x {
    last_seen = now;
    comm = comm;
    executable_path = some filename;
  }

  unfoldable pub record_exec :
      AgentIdentityEngine
      → ℕ
      → ℕ
      → String
      → String
      → AgentIdentityEngine × Option AgentRuntimeIdentity
  unfolding exec_new
  record_exec e pid ppid comm filename = elim (get e.pid_map pid) [
    | none ↦ exec_new e pid ppid comm filename
    | some id ↦ elim (get e.identities id) [
      | none ↦ exec_new e pid ppid comm filename
      | some r ↦ (
        record e { identities = alter e.identities id (exec_update comm filename) },
        some (exec_update comm filename r),
      )
    ]
  ]

  unfoldable pub record_fork :
      AgentIdentityEngine → ℕ → ℕ → String → AgentIdentityEngine × Option AgentRuntimeIdentity
  unfolding update_process_tree
  record_fork e parent_pid child_pid comm = elim (get e.pid_map parent_pid) [
    | none ↦ (e, none)
    | some parent_id ↦ elim (get e.identities parent_id) [
      | none ↦ (e, none)
      | some parent ↦
          let r =
            child_identity fresh now child_pid parent_pid (child_name parent.agent_name child_pid)
              comm none parent_id parent.process_tree_depth parent.version parent.framework in
          let e' = record e { identities = alter e.identities parent_id (push_child child_pid) } in
          (
            update_process_tree (insert_child e' child_pid parent_id r) child_pid parent_pid fresh
                false now,
            some r,
          )
    ]
  ]

unfoldable pub record_exit : ℕ → AgentIdentityEngine → ℕ → AgentIdentityEngine
unfolding drop_pid
record_exit now e pid = record e {
  known_agent_pids = drop_pid pid e.known_agent_pids;
  process_tree = alter e.process_tree pid (λ n. record n { is_agent = false });
  identities = elim (get e.pid_map pid) [
    | none ↦ e.identities
    | some id ↦ alter e.identities id (λ x. record x { last_seen = now })
  ];
}

unfoldable pub resolve_connection : AgentIdentityEngine → ℕ → Option AgentRuntimeIdentity
resolve_connection e pid = elim (get e.pid_map pid) [ none ↦ none | some id ↦ get e.identities id ]

unfoldable pub get_children : AgentIdentityEngine → ℕ → List ℕ
get_children e pid = elim (get e.process_tree pid) [ none ↦ [] | some n ↦ n.children ]

-- `for child_pid in &root.child_pids`
unfoldable pub children_of : AgentIdentityEngine → List ℕ → List AgentRuntimeIdentity
unfolding resolve_pid
children_of e [] = []
children_of e (pid ∷ pids) =
    let rest = children_of e pids in
    elim (resolve_pid e pid) [ none ↦ rest | some child ↦ child ∷ rest ]

unfoldable pub get_process_tree : AgentIdentityEngine → ℕ → List AgentRuntimeIdentity
unfolding children_of
get_process_tree e id = elim (get e.identities id) [
  | none ↦ []
  | some root ↦ root ∷ children_of e root.child_pids
]

unfoldable pub all_identities : AgentIdentityEngine → List AgentRuntimeIdentity
all_identities e = map (λ x. x.1) e.identities

unfoldable pub identity_count : AgentIdentityEngine → ℕ
identity_count e = length e.identities

unfoldable pub is_known_agent_pid : AgentIdentityEngine → ℕ → Bool
is_known_agent_pid e pid = any (λ p. p == pid) e.known_agent_pids

unfoldable pub export_identities : AgentIdentityEngine → List AgentRuntimeIdentity
export_identities e = map (λ x. x.1) e.identities

abbrev pub or_empty : Option (List ℕ) → List ℕ
or_empty none = []
or_empty (some pids) = pids

unfoldable pub import_identities :
    AgentIdentityEngine → List AgentRuntimeIdentity → AgentIdentityEngine
import_identities e [] = e
import_identities e (r ∷ rs) =
    import_identities
      (record e {
        identities = put e.identities r.agent_id r;
        pid_map = put e.pid_map r.pid r.agent_id;
        agent_pid_history =
            put e.agent_pid_history r.agent_id
              (or_empty (get e.agent_pid_history r.agent_id) ++ (r.pid ∷ []));
      })
      rs
