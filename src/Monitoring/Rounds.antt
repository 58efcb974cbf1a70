-- ===== src/Monitoring/Rounds.antt =====
-- What the client of a monitor of crates/monitoring/src/lib.rs does with it, as a sequence of calls:
-- agents come and go, their states are set, and rounds of checks follow each other.
use omnisec.Prelude.{
  ℕ, ◌+◌, ◌<◌, ◌≤◌, ◌≡◌, refl, ap, sym, subst, ◌∙◌, inl, inr, Bool, true, false, not, arith, leb,
  Bool-cases, String, List, [], ◌∷◌, length, Option, none, some, if◌then◌else◌,
}
use omnisec.Prelude.External.{FloatOps}
use omnisec.Prelude.Maps.{
  NatMap, get, put, put_new, keys, Distinct, put-Distinct, erase-Distinct, keys-alter, get-put_new,
  get-alter, get-erase, mapped,
}
use omnisec.Monitoring.Health.{
  AgentHealthState, HealthStatus, HealthMonitor, HealthEvent, Observation, u32_mod, register_health,
  unregister_health, set_agent_state, check_status, check_process, check_all, check_health,
  put_state, with_failure_threshold, fresh_status,
}
use omnisec.Monitoring.Local.{
  detect_hung_lem, Vitals, vitals, limits, limits-check_all, vitals_after, vitals_with,
  status_after, check_health-vitals,
}
use omnisec.Monitoring.Machine.{
  Condition, condition, Move, set, recover, hang, miss, die, stay_dead, Standing, Move-Standing,
  status_after-Move,
}

pub data Call : Type 0 where
  registering : ℕ → String → Call
  unregistering : ℕ → Call
  setting : ℕ → AgentHealthState → Call
  check : (ℕ → Observation) → Call

abbrev pub apply : FloatOps → HealthMonitor → Call → HealthMonitor
apply f m (registering pid name) = register_health f m pid name
apply f m (unregistering pid) = unregister_health m pid
apply f m (setting pid state) = set_agent_state m pid state
apply f m (check observe) = (check_health m observe).0

abbrev pub run : FloatOps → HealthMonitor → List Call → HealthMonitor
run f m [] = m
run f m (c ∷ cs) = run f (apply f m c) cs

-- The map of the agents has one entry for a process.
module _ {ℓ} {V : Type ℓ} (m : NatMap V) (k : ℕ) (v : V) (h : Distinct (keys m)) where
  new_in : (found : Option V) → Distinct (keys (elim found [ none ↦ put m k v | some w ↦ m ]))
  new_in none = put-Distinct m k v h
  new_in (some w) = h

  put_new-Distinct : Distinct (keys (put_new m k v))
  unfolding put_new
  put_new-Distinct = new_in (get m k)

abbrev pub OneEach : HealthMonitor → Type 0
OneEach m = Distinct (keys m.agents)

module _ (m : HealthMonitor) (pid : ℕ) (o : Observation) (h : OneEach m) where
  check_status-OneEach : (s : HealthStatus) → OneEach (check_status m pid o s).0
  unfolding check_status
  check_status-OneEach s = elim (Bool-cases o.is_alive) [
    | inl a ↦
        let (_, same, _, _, _) = detect_hung_lem m pid o.ticks pid in
        rw a (put-Distinct _ pid _ (subst (λ x. Distinct (keys x)) (sym same) h))
    | inr a ↦ rw a (put-Distinct m.agents pid _ h)
  ]

  found_in :
      (found : Option HealthStatus)
      → (let r : HealthMonitor × List HealthEvent = elim found [
        | none ↦ (m, [])
        | some s ↦ check_status m pid o s
      ] in
          OneEach r.0)
  found_in none = h
  found_in (some s) = check_status-OneEach s

  check_process-OneEach : OneEach (check_process m pid o).0
  unfolding check_process
  check_process-OneEach = found_in (get m.agents pid)

check_all-OneEach :
    (observe : ℕ → Observation) (ps : List ℕ) (m : HealthMonitor)
    → OneEach m
    → OneEach (check_all m observe ps).0
unfolding check_all
check_all-OneEach observe [] m h = h
check_all-OneEach observe (p ∷ ps) m h =
    check_all-OneEach observe ps (check_process m p (observe p)).0
      (check_process-OneEach m p (observe p) h)

pub check_health-OneEach :
    (m : HealthMonitor) (observe : ℕ → Observation) → OneEach m → OneEach (check_health m observe).0
unfolding check_health
check_health-OneEach m observe h = check_all-OneEach observe (keys m.agents) m h

pub check_health-limits :
    (m : HealthMonitor) (observe : ℕ → Observation) → limits (check_health m observe).0 ≡ limits m
unfolding check_health
check_health-limits m observe = limits-check_all observe (keys m.agents) m

apply-OneEach : (f : FloatOps) (m : HealthMonitor) (c : Call) → OneEach m → OneEach (apply f m c)
unfolding register_health unregister_health set_agent_state
apply-OneEach f m (registering pid name) h = put_new-Distinct m.agents pid _ h
apply-OneEach f m (unregistering pid) h = erase-Distinct m.agents pid h
apply-OneEach f m (setting pid s) h = subst Distinct (sym (keys-alter m.agents pid (put_state s))) h
apply-OneEach f m (check observe) h = check_health-OneEach m observe h

-- After `k` calls: the flag of an agent agrees with its failures, and there are at most `k` of them.
abbrev Fair : ℕ → ℕ → HealthStatus → Type 0
Fair limit k s = Standing limit (condition s) × (s.consecutive_failures ≤ k)

abbrev pub On : (HealthStatus → Type 0) → Option HealthStatus → Type 0
On P none = Unit
On P (some s) = P s

later :
    (limit k : ℕ) (found : Option HealthStatus)
    → On (Fair limit k) found
    → On (Fair limit (k + 1)) found
later limit k none h = tt
later limit k (some s) h = (h.0, ground (arith, h.1))

Move-grows : (limit : ℕ) (c d : Condition) → Move limit c d → d.failures ≤ c.failures + 1
Move-grows limit c _ (recover _) = ground arith
Move-grows limit c _ (hang _) = ground arith
Move-grows limit c _ (miss _ a k) = ground arith
Move-grows limit c _ (die _ a k) = ground arith
Move-grows limit c _ (stay_dead _ a) = ground arith
Move-grows limit c _ (set _ s) = ground arith

module _ (limit k cycles : ℕ) (p : 1 ≤ limit) (b : k + 1 < u32_mod) (q : ℕ) (o : Observation)
    (v : Vitals) where
  checked_status :
      (s : HealthStatus)
      → Fair limit k s
      → Fair limit (k + 1) (status_after (limit, cycles) q o v s).0
  checked_status s h =
      let move = status_after-Move (limit, cycles) q v s o (ground (arith, h.1)) in
      (Move-Standing limit _ _ p h.0 move, ground (arith, h.1, Move-grows limit _ _ move))

  checked_in :
      (found : Option HealthStatus)
      → v.status ≡ found
      → On (Fair limit k) found
      → (let w : Vitals = elim found [ none ↦ v | some s ↦ vitals_with (limit, cycles) q o v s ] in
          On (Fair limit (k + 1)) w.status)
  checked_in none e h = rw e tt
  checked_in (some s) e h = checked_status s h

-- The monitors that `k` calls lead to.
abbrev pub Sound : ℕ → ℕ → HealthMonitor → Type 0
Sound limit k m =
    OneEach m × (m.failure_threshold ≡ limit) × ((q : ℕ) → On (Fair limit k) (get m.agents q))

pick :
    (limit k : ℕ) (c : Bool) (x y z : Option HealthStatus)
    → z ≡ (if c then x else y)
    → On (Fair limit k) x
    → On (Fair limit k) y
    → On (Fair limit k) z
pick limit k true x y z e h g = subst (On (Fair limit k)) (sym e) h
pick limit k false x y z e h g = subst (On (Fair limit k)) (sym e) g

put_state-Fair :
    (limit k : ℕ) (t : AgentHealthState) (found : Option HealthStatus)
    → On (Fair limit k) found
    → On (Fair limit k) (mapped (put_state t) found)
put_state-Fair limit k t none h = tt
put_state-Fair limit k t (some s) h = h

module _ (f : FloatOps) (limit k : ℕ) (p : 1 ≤ limit) (b : k + 1 < u32_mod)
    (m : HealthMonitor) where
  apply-Fair :
      (c : Call) → Sound limit k m → (q : ℕ) → On (Fair limit (k + 1)) (get (apply f m c).agents q)
  unfolding register_health unregister_health set_agent_state
  apply-Fair (registering pid name) (_, _, h) q =
      pick limit (k + 1) _ (some (fresh_status f pid name)) _ _
        (get-put_new m.agents pid q (fresh_status f pid name)) (ground arith, ground arith)
        (later limit k _ (h q))
  apply-Fair (unregistering pid) (_, _, h) q =
      pick limit (k + 1) _ none _ _ (get-erase m.agents pid q) tt (later limit k _ (h q))
  apply-Fair (setting pid s) (_, _, h) q =
      pick limit (k + 1) _ _ _ _ (get-alter m.agents pid q (put_state s))
        (put_state-Fair limit (k + 1) s _ (later limit k _ (h q))) (later limit k _ (h q))
  apply-Fair (check observe) (d, t, h) q =
      subst (On (Fair limit (k + 1)))
        (sym (ap (λ v. v.status) ((check_health-vitals observe m d).0 q)))
        (subst
          (λ l.
            On (Fair limit (k + 1))
              (vitals_after (l, m.hang_threshold_cycles) q (observe q) (vitals m q)).status)
          (sym t)
          (checked_in limit k m.hang_threshold_cycles p b q (observe q) (vitals m q)
            (get m.agents q) refl (h q)))

  apply-threshold : (c : Call) → (apply f m c).failure_threshold ≡ m.failure_threshold
  unfolding register_health unregister_health set_agent_state
  apply-threshold (registering pid name) = refl
  apply-threshold (unregistering pid) = refl
  apply-threshold (setting pid s) = refl
  apply-threshold (check observe) = ap (λ l. l.0) (check_health-limits m observe)

  apply-Sound : (c : Call) → Sound limit k m → Sound limit (k + 1) (apply f m c)
  apply-Sound c (d, t, h) = (apply-OneEach f m c d, apply-threshold c ∙ t, apply-Fair c (d, t, h))

run-Sound :
    (f : FloatOps) (limit k : ℕ)
    → 1 ≤ limit
    → (cs : List Call) → k + length cs < u32_mod
    → (m : HealthMonitor) → Sound limit k m
    → Sound limit (k + length cs) (run f m cs)
run-Sound f limit k p [] b m h = subst (λ n. Sound limit n m) (ground arith) h
run-Sound f limit k p (c ∷ cs) b m h =
    subst (λ n. Sound limit n (run f (apply f m c) cs)) (ground arith)
      (run-Sound f limit (k + 1) p cs (ground arith) (apply f m c)
        (apply-Sound f limit k p (ground arith) m c h))

-- A monitor with a failure threshold that is not zero, after fewer than 2 ^ 32 calls of `register_agent`,
-- `unregister_agent`, `set_agent_state` and `check_health` in any order: it has one status for an agent,
-- and each agent that it has is marked alive just when its consecutive failures are below the threshold.
pub run-with_failure_threshold :
    (f : FloatOps) (limit : ℕ) (cs : List Call)
    → 1 ≤ limit
    → length cs < u32_mod
    → OneEach (run f (with_failure_threshold limit) cs)
      × ((q : ℕ)
          → On
              (λ s. s.alive ≡ not (leb limit s.consecutive_failures))
              (get (run f (with_failure_threshold limit) cs).agents q))
unfolding with_failure_threshold get
run-with_failure_threshold f limit cs p b =
    let (d, _, h) =
      run-Sound f limit 0 p cs (ground arith) (with_failure_threshold limit) (tt, refl, λ q. tt) in
    (d, λ q. first _ (h q))
  where
    first :
        (found : Option HealthStatus)
        → On (Fair limit (0 + length cs)) found
        → On (λ s. s.alive ≡ not (leb limit s.consecutive_failures)) found
    first none k = tt
    first (some s) k = k.0
