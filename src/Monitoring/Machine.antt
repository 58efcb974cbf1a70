-- ===== src/Monitoring/Machine.antt =====
-- The states of an agent in crates/monitoring/src/lib.rs: their names, and the moves that checks make
-- between them.
use omnisec.Prelude.{
  ℕ, ◌+◌, ◌%◌, ◌<◌, ◌≤◌, ◌≡◌, refl, inl, inr, Bool, true, false, not, ◌&&◌, arith, leb, Bool-cases,
}
use omnisec.Monitoring.Health.{
  AgentHealthState, unknown, healthy, warning, failed, restarting, as_str, from_str, HealthStatus,
  Observation, u32_mod, seen_alive, seen_dead,
}
use omnisec.Monitoring.Local.{Vitals, status_after, hangs}

-- A state is read back from its name.
pub from_str-as_str : (s : AgentHealthState) → from_str (as_str s) ≡ s
unfolding from_str as_str
from_str-as_str unknown = refl
from_str-as_str healthy = refl
from_str-as_str warning = refl
from_str-as_str failed = refl
from_str-as_str restarting = refl

pub positive : (n : ℕ) → leb 1 (n + 1) ≡ true
positive n = ground arith

no : (b : Bool) → (b && false) ≡ false
no true = refl
no false = refl

-- What the transitions look at.
pub record Condition : Type 0 where
  pub state : AgentHealthState
  pub alive : Bool
  pub failures : ℕ

abbrev pub condition : HealthStatus → Condition
condition s = record { state = s.state; alive = s.alive; failures = s.consecutive_failures }

abbrev pub at : AgentHealthState → Bool → ℕ → Condition
at s a n = record { state = s; alive = a; failures = n }

-- The moves of an agent with the failure threshold `limit`.
pub data Move (limit : ℕ) : Condition → Condition → Type 0 where
  recover : (c : Condition) → Move limit c (at healthy true 0)
  hang : (c : Condition) → Move limit c (at warning true 0)
  miss :
      (c : Condition)
      → c.alive ≡ true
      → c.failures + 1 < limit
      → Move limit c (at warning true (c.failures + 1))
  die :
      (c : Condition)
      → c.alive ≡ true
      → limit ≤ c.failures + 1
      → Move limit c (at failed false (c.failures + 1))
  stay_dead : (c : Condition) → c.alive ≡ false → Move limit c (at c.state false (c.failures + 1))
  set : (c : Condition) (s : AgentHealthState) → Move limit c (at s c.alive c.failures)

pub small_mod : (n : ℕ) → n < u32_mod → n % u32_mod ≡ n
small_mod n h = ground arith

module _ (l : ℕ × ℕ) (pid : ℕ) (v : Vitals) (s : HealthStatus) where
  dead-Move :
      s.consecutive_failures + 1 < u32_mod
      → Move l.0 (condition s) (condition (seen_dead l.0 pid s).0)
  unfolding seen_dead
  dead-Move h =
      let n = s.consecutive_failures in
      let m = small_mod (n + 1) h in
      elim (Bool-cases s.alive) [
        | inl a ↦ elim (Bool-cases (leb l.0 (n + 1))) [
          | inl b ↦ rw (m, b, a) (die (at s.state true n) refl (ground arith))
          | inr b ↦ rw (m, b, a, positive n) (miss (at s.state true n) refl (ground arith))
        ]
        | inr a ↦
            rw (m, a, no (leb l.0 (n + 1)), no (leb 1 (n + 1)))
              (stay_dead (at s.state false n) refl)
      ]

  pub status_after-Move :
      (o : Observation)
      → s.consecutive_failures + 1 < u32_mod
      → Move l.0 (condition s) (condition (status_after l pid o v s).0)
  unfolding seen_alive
  status_after-Move o h = elim (Bool-cases o.is_alive) [
    | inl a ↦ elim (Bool-cases (hangs l.1 v o.ticks)) [
      | inl b ↦ rw (a, b) (hang (condition s))
      | inr b ↦ rw (a, b) (recover (condition s))
    ]
    | inr a ↦ rw a (dead-Move h)
  ]

-- What holds between the failures that are counted and the flag: a process counts as alive just while
-- its failures are below the limit.
abbrev pub Standing : ℕ → Condition → Type 0
Standing limit c = c.alive ≡ not (leb limit c.failures)

pub Move-Standing :
    (limit : ℕ) (c d : Condition) → 1 ≤ limit → Standing limit c → Move limit c d → Standing limit d
Move-Standing limit c _ p h (recover _) = ground arith
Move-Standing limit c _ p h (hang _) = ground arith
Move-Standing limit c _ p h (miss _ a k) = ground arith
Move-Standing limit c _ p h (die _ a k) = ground arith
Move-Standing limit c _ p h (stay_dead _ a) = ground arith
Move-Standing limit c _ p h (set _ s) = h
