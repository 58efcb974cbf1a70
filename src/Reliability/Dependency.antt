-- ===== src/Reliability/Dependency.antt =====
-- `DependencyHealthMonitor` of crates/reliability/src/dependency.rs. The u64 and u32 counters wrap.
use text.Mathlib.Text.{◌==◌ as str_eq}
use omnisec.Prelude.{
  ℕ, ◌+◌, ◌%◌, ◌^◌, String, Bool, true, false, ◌||◌, Option, none, some, List, [], ◌∷◌, ◌++◌, map,
  ltb, leb, if◌then◌else◌, is_empty, length, any, find, retain,
}
use omnisec.Prelude.Tables.{lookup, put}
use omnisec.Prelude.External.{DateTime, F64, FloatOps}

pub data DependencyType : Type 0 where
  postgres redis nats : DependencyType
  custom : String → DependencyType

pub data DependencyStatus : Type 0 where
  healthy degraded failed unknown : DependencyStatus

pub record DependencyHealth : Type 0 where
  pub name : String
  pub dependency_type : DependencyType
  pub status : DependencyStatus
  pub last_check : DateTime
  pub latency_ms : Option F64
  pub error : Option String
  pub consecutive_failures : ℕ
  pub uptime_percent : F64

pub record HealthCheck : Type 0 where
  pub name : String
  pub dependency_type : DependencyType
  pub check_interval_secs : ℕ
  pub timeout_secs : ℕ
  pub failure_threshold : ℕ

pub record DependencyMonitor : Type 0 where
  pub dependencies : List (String × DependencyHealth)
  pub checks : List HealthCheck
  pub total_checks : List (String × ℕ)
  pub successful_checks : List (String × ℕ)

unfoldable pub new_monitor : DependencyMonitor
new_monitor = record { dependencies = []; checks = []; total_checks = []; successful_checks = [] }

abbrev pub u32_mod : ℕ
u32_mod = 2 ^ 32

abbrev pub u64_mod : ℕ
u64_mod = 2 ^ 64

-- `get(name).unwrap_or(&0)`
abbrev pub counted : List (String × ℕ) → String → ℕ
counted t name = elim (lookup t name) [ none ↦ 0 | some n ↦ n ]

-- `*entry(name).or_insert(0) += 1`
unfoldable pub count_up : List (String × ℕ) → String → List (String × ℕ)
count_up t name = put t name ((counted t name + 1) % u64_mod)

unfoldable pub threshold_of : List HealthCheck → String → ℕ
threshold_of checks name = elim (find (λ c. str_eq c.name name) checks) [
  | none ↦ 3
  | some c ↦ c.failure_threshold
]

-- The status after a failed check, which leaves the old one where no test holds.
unfoldable pub failed_status : ℕ → ℕ → DependencyStatus → DependencyStatus
failed_status threshold failures old =
    if leb threshold failures then failed else if ltb 0 failures then degraded else old

-- The outcome of one check.
pub record CheckResult : Type 0 where
  pub success : Bool
  pub latency_ms : Option F64
  pub error : Option String
  pub at : DateTime

module _ (f : FloatOps) where
  unfoldable pub register_dependency :
      DependencyMonitor → HealthCheck → DateTime → DependencyMonitor
  register_dependency m check now = record m {
    dependencies = put m.dependencies check.name (record {
      name = check.name;
      dependency_type = check.dependency_type;
      status = unknown;
      last_check = now;
      latency_ms = none;
      error = none;
      consecutive_failures = 0;
      uptime_percent = f.of_nat 100;
    });
    checks = m.checks ++ check ∷ [];
  }

  unfoldable pub uptime : ℕ → ℕ → F64
  uptime total successful =
      if ltb 0 total
      then f.mul (f.div (f.of_nat successful) (f.of_nat total)) (f.of_nat 100)
      else f.of_nat 100

  -- The body of `if let Some(health)`.
  unfoldable pub checked : CheckResult → ℕ → ℕ → ℕ → DependencyHealth → DependencyHealth
  unfolding failed_status uptime
  checked r threshold total successful h =
      let failures = (h.consecutive_failures + 1) % u32_mod in
      record h {
        last_check = r.at;
        latency_ms = r.latency_ms;
        error = r.error;
        consecutive_failures = if r.success then 0 else failures;
        status = if r.success then healthy else failed_status threshold failures h.status;
        uptime_percent = uptime total successful;
      }

  unfoldable pub record_check_result : DependencyMonitor → String → CheckResult → DependencyMonitor
  unfolding count_up threshold_of checked
  record_check_result m name r =
      let total = count_up m.total_checks name in
      let successful =
        if r.success then count_up m.successful_checks name else m.successful_checks in
      record m {
        total_checks = total;
        successful_checks = successful;
        dependencies = elim (lookup m.dependencies name) [
          | none ↦ m.dependencies
          | some h ↦ put m.dependencies name (
              checked r (threshold_of m.checks name) (counted total name) (counted successful name)
                h)
        ];
      }

  -- `.sum()`; the map's order is the list's.
  unfoldable pub sum_from : F64 → List F64 → F64
  sum_from acc [] = acc
  sum_from acc (x ∷ xs) = sum_from (f.add acc x) xs

  unfoldable pub get_overall_uptime : DependencyMonitor → F64
  unfolding sum_from
  get_overall_uptime m =
      if is_empty m.dependencies
      then f.of_nat 100
      else f.div (sum_from (f.literal 0 1) (map (λ e. e.1.uptime_percent) m.dependencies))
          (f.of_nat (length m.dependencies))

unfoldable pub get_dependency_health : DependencyMonitor → String → Option DependencyHealth
get_dependency_health m name = lookup m.dependencies name

abbrev pub is_failed : DependencyStatus → Bool
is_failed failed = true
is_failed healthy = false
is_failed degraded = false
is_failed unknown = false

abbrev pub is_degraded : DependencyStatus → Bool
is_degraded degraded = true
is_degraded healthy = false
is_degraded failed = false
is_degraded unknown = false

pub data SystemStatus : Type 0 where
  all_healthy some_degraded all_failed not_known : SystemStatus

unfoldable pub get_system_status : DependencyMonitor → SystemStatus
get_system_status m =
    if is_empty m.dependencies
    then not_known
    else if any (λ e. is_failed e.1.status) m.dependencies
    then some_degraded
    else if any (λ e. is_degraded e.1.status) m.dependencies
    then some_degraded
    else all_healthy

unfoldable pub get_degraded_dependencies : DependencyMonitor → List DependencyHealth
get_degraded_dependencies m =
    retain (λ h. is_failed h.status || is_degraded h.status) (map (λ e. e.1) m.dependencies)
