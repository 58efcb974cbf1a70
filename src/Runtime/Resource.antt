-- ===== src/Runtime/Resource.antt =====
-- `ResourceControlEngine` of crates/runtime/src/resource.rs; the mode is that of the build. A method also
-- returns what it does to the cgroup file system, whose answers it does not look at.
use text.Mathlib.Text.{◌==◌ as str_eq}
use omnisec.Prelude.{
  ℕ, ◌*◌, ◌%◌, ◌^◌, String, Bool, true, false, not, ◌&&◌, Option, none, some, List, [], ◌∷◌, ◌++◌,
  ltb, if◌then◌else◌, length, retain,
}
use omnisec.Prelude.Texts.{concat}
use omnisec.Prelude.Decimal.{decimal}
use omnisec.Prelude.External.{Uuid, DateTime}
use omnisec.Runtime.Types.{RuntimeMode, native, simulated, RuntimeAction}

pub record ResourceLimit : Type 0 where
  pub cgroup_path : String
  pub agent_name : String
  pub pid : ℕ
  pub cpu_quota : Option String
  pub memory_max : Option String
  pub pids_max : Option ℕ
  pub created_at : DateTime
  pub active : Bool

pub record ResourceEngine : Type 0 where
  pub cgroups : List ResourceLimit
  pub mode : RuntimeMode

pub data CgroupOp : Type 0 where
  create_dir_all : String → CgroupOp
  write : String → String → CgroupOp
  remove_dir : String → CgroupOp

abbrev pub Step : Type 0
Step = ResourceEngine × RuntimeAction × List CgroupOp

unfoldable pub create_action : String → String → Uuid → DateTime → RuntimeAction
create_action action_type target id now = record {
  id = id;
  action_type = action_type;
  target = target;
  kernel_command = concat ("cgroup write " ∷ target ∷ " ..." ∷ []);
  result = "Pending";
  duration_ms = 0;
  timestamp = now;
  verified = false;
  rolled_back = false;
}

-- `cpu_percent * 1000` in 32 bits
unfoldable pub quota : ℕ → ℕ
quota cpu_percent = cpu_percent * 1000 % 2 ^ 32

abbrev pub written : String → Option String → List CgroupOp
written path none = []
written path (some content) = write path content ∷ []

-- `cgroup_v2` says whether the unified hierarchy is mounted.
unfoldable pub apply_cgroup_limits : Bool → ℕ → ℕ → Option String → List CgroupOp
unfolding quota decimal
apply_cgroup_limits cgroup_v2 pid cpu_percent memory_limit =
    if cgroup_v2
    then create_dir_all "/sys/fs/cgroup/omnisec"
        ∷ write "/sys/fs/cgroup/omnisec/cgroup.procs" (decimal pid)
        ∷ (if ltb 0 cpu_percent && ltb cpu_percent 100
            then write "/sys/fs/cgroup/omnisec/cpu.max"
                (concat (decimal (quota cpu_percent) ∷ " 100000" ∷ []))
              ∷ []
            else [])
      ++ written "/sys/fs/cgroup/omnisec/memory.max" memory_limit
      ++ write "/sys/fs/cgroup/omnisec/pids.max" "50" ∷ []
    else write "/sys/fs/cgroup/cpu/omnisec/cpu.cfs_quota_us" (decimal (quota cpu_percent))
        ∷ written "/sys/fs/cgroup/memory/omnisec/memory.limit_in_bytes" memory_limit
      ++ write "/sys/fs/cgroup/pids/omnisec/pids.max" "50" ∷ []

unfoldable pub limit_of : String → ℕ → String → ℕ → Option String → DateTime → ResourceLimit
unfolding quota decimal
limit_of path pid agent_name cpu_percent memory_limit now = record {
  cgroup_path = path;
  agent_name = agent_name;
  pid = pid;
  cpu_quota = some (concat (decimal (quota cpu_percent) ∷ " 100000" ∷ []));
  memory_max = memory_limit;
  pids_max = some 50;
  created_at = now;
  active = true;
}

abbrev pub add_limit : ResourceEngine → ResourceLimit → ResourceEngine
add_limit e l = record e { cgroups = e.cgroups ++ l ∷ [] }

abbrev pub finish : RuntimeAction → String → RuntimeAction
finish action result = record action { result = result; verified = true }

unfoldable pub throttle_in :
    RuntimeMode
    → Bool
    → ResourceEngine
    → ℕ
    → String
    → ℕ
    → Option String
    → RuntimeAction
    → DateTime
    → Step
unfolding apply_cgroup_limits limit_of
throttle_in native v2 e pid agent_name cpu_percent memory_limit action now = (
  add_limit e (
      limit_of (concat ("/sys/fs/cgroup/omnisec/" ∷ agent_name ∷ [])) pid agent_name cpu_percent
        memory_limit now),
  finish action "Applied",
  apply_cgroup_limits v2 pid cpu_percent memory_limit,
)
throttle_in simulated v2 e pid agent_name cpu_percent memory_limit action now = (
  add_limit e (
      limit_of (concat ("[sim] omnisec/" ∷ agent_name ∷ [])) pid agent_name cpu_percent memory_limit
        now),
  finish action "Simulated",
  [],
)

unfoldable pub throttle :
    Bool → ResourceEngine → ℕ → String → ℕ → Option String → Uuid → DateTime → Step
unfolding throttle_in create_action decimal
throttle v2 e pid agent_name cpu_percent memory_limit id now =
    throttle_in e.mode v2 e pid agent_name cpu_percent memory_limit
      (create_action "cgroup_throttle" (concat ("PID:" ∷ decimal pid ∷ [])) id now) now

unfoldable pub contain : Bool → ResourceEngine → ℕ → String → Uuid → DateTime → Step
unfolding throttle
contain v2 e pid agent_name id now = throttle v2 e pid agent_name 25 (some "256M") id now

abbrev pub limits : String → ResourceLimit → Bool
limits agent_name l = str_eq l.agent_name agent_name

abbrev pub without : ResourceEngine → String → ResourceEngine
without e agent_name = record e { cgroups = retain (λ l. not (limits agent_name l)) e.cgroups }

unfoldable pub release_in : RuntimeMode → ResourceEngine → String → RuntimeAction → Step
release_in native e agent_name action = (
  without e agent_name,
  finish action "Released",
  remove_dir (concat ("/sys/fs/cgroup/omnisec/" ∷ agent_name ∷ [])) ∷ [],
)
release_in simulated e agent_name action = (without e agent_name, finish action "Simulated", [])

unfoldable pub release : ResourceEngine → String → Uuid → DateTime → Step
unfolding release_in create_action
release e agent_name id now =
    release_in e.mode e agent_name (create_action "cgroup_release" agent_name id now)

unfoldable pub get_active_cgroups : ResourceEngine → List ResourceLimit
get_active_cgroups e = retain (λ l. l.active) e.cgroups

unfoldable pub active_cgroup_count : ResourceEngine → ℕ
active_cgroup_count e = length (retain (λ l. l.active) e.cgroups)
