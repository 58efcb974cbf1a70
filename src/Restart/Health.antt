-- ===== src/Restart/Health.antt =====
-- `calculate_health` and `should_restart` of crates/restart/src/lib.rs.
use omnisec.Prelude.{ℕ, ◌*◌, ◌≤◌, ◌<◌, ◌≡◌, ◌&&◌, arith, ltb}
use omnisec.Restart.Engine.{
  RestartConfig, AgentState, AgentStatus, healthy, degraded, failed, restarting, permanently_failed,
  u32_mod, should_restart, calculate_health,
}

-- How bad a status is.
abbrev pub severity : AgentStatus → ℕ
severity healthy = 0
severity degraded = 1
severity failed = 2
severity restarting = 2
severity permanently_failed = 3

module _ (config : RestartConfig) where
  -- More failures in a row never make an agent healthier, while twice `max_retries` fits 32 bits.
  calculate_health_mono :
      (a b : AgentState)
      → config.max_retries * 2 < u32_mod
      → a.consecutive_failures ≤ b.consecutive_failures
      → severity (calculate_health config a) ≤ severity (calculate_health config b)
  unfolding calculate_health
  calculate_health_mono a b h k = ground arith

  -- An agent whose status is its calculated health is restarted exactly when it has failed, and
  -- fewer than twice `max_retries` times in a row.
  pub should_restart-calculate_health :
      (a : AgentState)
      → config.max_retries * 2 < u32_mod
      → should_restart (record a { status = calculate_health config a })
        ≡ (ltb 0 a.consecutive_failures && ltb a.consecutive_failures (config.max_retries * 2))
  unfolding should_restart calculate_health
  should_restart-calculate_health a h = ground arith
