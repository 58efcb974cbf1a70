-- ===== src/Monitoring/Death.antt =====
-- Rounds of checks of crates/monitoring/src/lib.rs in which one process stays dead.
use omnisec.Prelude.{
  ℕ, suc, String, ◌+◌, ◌<◌, ◌≤◌, ◌≡◌, refl, ap, subst, ◌∙◌, inl, inr, Bool, true, false, not, ◌&&◌,
  arith, leb, ◌==◌, Bool-cases, List, [], ◌∷◌, ◌++◌, length, Option, none, some, any, ==_iff,
  if◌then◌else◌,
}
use mathlib.Core.Path.{ap₂}
use omnisec.Prelude.Maps.{get, keys, Distinct, get_absent}
use omnisec.Monitoring.Health.{
  failed, warning, HealthStatus, HealthMonitor, HealthEvent, agent_died, agent_unhealthy,
  agent_recovered, agent_restarted, Observation, u32_mod, seen_alive, seen_dead, check_health,
}
use omnisec.Monitoring.Local.{
  Vitals, vitals, limits, vitals_after, status_after, events_after, events_of, check_health-vitals,
}
use omnisec.Monitoring.Machine.{small_mod, positive}
use omnisec.Monitoring.Rounds.{OneEach, check_health-OneEach, check_health-limits}

-- One check after the other, with all their events.
abbrev pub rounds : HealthMonitor → List (ℕ → Observation) → HealthMonitor × List HealthEvent
rounds m [] = (m, [])
rounds m (o ∷ os) =
    let (m', events) = check_health m o in
    let (m'', others) = rounds m' os in (m'', events ++ others)

abbrev pub died : ℕ → HealthEvent → Bool
died q (agent_died p name) = p == q
died q (agent_unhealthy p name reason) = false
died q (agent_recovered p name) = false
died q (agent_restarted p name n) = false

-- The deaths of one process among the events.
abbrev pub deaths : ℕ → List HealthEvent → ℕ
deaths q [] = 0
deaths q (e ∷ es) = (if died q e then 1 else 0) + deaths q es

deaths_add : (q : ℕ) (es fs : List HealthEvent) → deaths q (es ++ fs) ≡ deaths q es + deaths q fs
deaths_add q [] fs = ground arith
deaths_add q (e ∷ es) fs = rw (deaths_add q es fs) (ground arith)

-- What is known of a process after `n` checks that found it dead.
abbrev pub dead_for : ℕ → HealthStatus → ℕ → HealthStatus
dead_for limit s n = record s {
  consecutive_failures = n;
  alive = not (leb limit n);
  state = if leb limit n then failed else if leb 1 n then warning else s.state;
}

below : (limit n : ℕ) → leb limit (n + 1) ≡ false → leb limit n ≡ false
below limit n h = ground arith

not_at : (limit n : ℕ) → leb limit n ≡ false → (n == limit) ≡ false
not_at limit n h = ground arith

passed : (limit n : ℕ) → leb limit n ≡ true → (n + 1 == limit) ≡ false
passed limit n h = ground arith

just : (limit n : ℕ) → leb limit (n + 1) ≡ true → leb limit n ≡ false → (n + 1 == limit) ≡ true
just limit n h k = ground arith

module _ (limit : ℕ) (pid : ℕ) (s : HealthStatus) where
  seen_dead-dead_for :
      (n : ℕ)
      → n + 1 < u32_mod
      → seen_dead limit pid (dead_for limit s n)
        ≡ (dead_for limit s (n + 1), if n + 1 == limit then agent_died pid s.name ∷ [] else [])
  unfolding seen_dead
  seen_dead-dead_for n b = elim (Bool-cases (leb limit (n + 1))) [
    | inr a ↦ rw (small_mod (n + 1) b, a, below limit n a, not_at limit (n + 1) a, positive n) refl
    | inl a ↦ elim (Bool-cases (leb limit n)) [
      | inl c ↦ rw (small_mod (n + 1) b, a, c, passed limit n c, positive n) refl
      | inr c ↦ rw (small_mod (n + 1) b, a, c, just limit n a c) refl
    ]
  ]

-- The other processes do not count.
module _ (q p : ℕ) (l : ℕ × ℕ) (o : Observation) (v : Vitals) (h : (p == q) ≡ false) where
  other_status : (s : HealthStatus) → deaths q (status_after l p o v s).1 ≡ 0
  unfolding seen_alive seen_dead
  other_status s = ground (arith, h)

  other_in :
      (found : Option HealthStatus)
      → (let events : List HealthEvent = elim found [
        | none ↦ []
        | some s ↦ (status_after l p o v s).1
      ] in
          deaths q events ≡ 0)
  other_in none = refl
  other_in (some s) = other_status s

  other_deaths : deaths q (events_after l p o v) ≡ 0
  other_deaths = other_in v.status

zero_add : (n : ℕ) → 0 + n ≡ n
zero_add n = ground arith

-- A round in which `q` is dead.
module _ (q : ℕ) (observe : ℕ → Observation) where
  add_once :
      (p : ℕ) (ps : List ℕ) (f : ℕ → ℕ)
      → any (λ j. j == p) ps ≡ false
      → ((p == q) ≡ false → f p ≡ 0)
      → f p + (if any (λ j. j == q) ps then f q else 0)
        ≡ (if any (λ j. j == q) (p ∷ ps) then f q else 0)
  unfolding any
  add_once p ps f d h = elim (Bool-cases (p == q)) [
    | inl e ↦
        let same = (==_iff p q).0 e in
        let absent = subst (λ i. any (λ j. j == i) ps ≡ false) same d in
        rw (e, absent) (ground (arith, ap f same))
    | inr e ↦ rw (e, h e) (zero_add _)
  ]

  deaths-events_of :
      (l : ℕ × ℕ) (w : ℕ → Vitals) (ps : List ℕ)
      → Distinct ps
      → deaths q (events_of l observe w ps)
        ≡ (if any (λ j. j == q) ps then deaths q (events_after l q (observe q) (w q)) else 0)
  unfolding any
  deaths-events_of l w [] d = refl
  deaths-events_of l w (p ∷ ps) d =
      deaths_add q (events_after l p (observe p) (w p)) (events_of l observe w ps)
      ∙ ap (λ n. deaths q (events_after l p (observe p) (w p)) + n) (deaths-events_of l w ps d.1)
      ∙ add_once p ps (λ i. deaths q (events_after l i (observe i) (w i))) d.0
          (other_deaths q p l (observe p) (w p))

  present :
      (m : HealthMonitor) (s : HealthStatus)
      → get m.agents q ≡ some s
      → any (λ j. j == q) (keys m.agents) ≡ true
  present m s h = elim (Bool-cases (any (λ j. j == q) (keys m.agents))) [
    | inl a ↦ a
    | inr a ↦ ground (arith, h, get_absent m.agents q a)
  ]

  module _ (m : HealthMonitor) (s : HealthStatus) (a : (observe q).is_alive ≡ false)
      (h : get m.agents q ≡ some s) where
    known :
        (vitals_after (limits m) q (observe q) (vitals m q)).status
        ≡ some (seen_dead m.failure_threshold q s).0
    known = rw (h, a) refl

    told :
        events_after (limits m) q (observe q) (vitals m q) ≡ (seen_dead m.failure_threshold q s).1
    told = rw (h, a) refl

    dead_round :
        OneEach m
        → (get (check_health m observe).0.agents q ≡ some (seen_dead m.failure_threshold q s).0)
          × (deaths q (check_health m observe).1 ≡ deaths q (seen_dead m.failure_threshold q s).1)
    dead_round d =
        let (v, e) = check_health-vitals observe m d in
        (
          ap (λ x. x.status) (v q) ∙ known,
          ap (deaths q) e
              ∙ deaths-events_of (limits m) (vitals m) (keys m.agents) d
              ∙ rw (present m s h) (ap (deaths q) told),
        )

zero_below : (limit : ℕ) → 1 ≤ limit → leb limit 0 ≡ false
zero_below limit p = ground arith

-- Every round finds `q` dead.
abbrev pub AllDead : ℕ → List (ℕ → Observation) → Type 0
AllDead q [] = Unit
AllDead q (o ∷ os) = ((o q).is_alive ≡ false) × AllDead q os

one_death :
    (q n limit : ℕ) (name : String)
    → deaths q (if n == limit then agent_died q name ∷ [] else []) ≡ (if n == limit then 1 else 0)
one_death q n limit name = ground arith

count_step :
    (limit n k : ℕ)
    → (if n + 1 == limit then 1 else 0)
        + (if leb limit (n + 1 + k) && not (leb limit (n + 1)) then 1 else 0)
      ≡ (if leb limit (n + suc k) && not (leb limit n) then 1 else 0)
count_step limit n k = ground arith

dead_for_start :
    (limit : ℕ) (s : HealthStatus)
    → 1 ≤ limit
    → s.alive ≡ true
    → s.consecutive_failures ≡ 0
    → s ≡ dead_for limit s 0
dead_for_start limit s p a f =
    ap₂ (λ x y. record s { alive = x; consecutive_failures = y }) a f ∙ rw (zero_below limit p) refl

module _ (q : ℕ) (limit : ℕ) (s : HealthStatus) where
  dead_rounds :
      (os : List (ℕ → Observation)) (n : ℕ) (m : HealthMonitor)
      → AllDead q os
      → n + length os < u32_mod
      → OneEach m
      → m.failure_threshold ≡ limit
      → get m.agents q ≡ some (dead_for limit s n)
      → (get (rounds m os).0.agents q ≡ some (dead_for limit s (n + length os)))
        × (deaths q (rounds m os).1
            ≡ (if leb limit (n + length os) && not (leb limit n) then 1 else 0))
  dead_rounds [] n m a b d t h =
      (h ∙ ap (λ k. some (dead_for limit s k)) (ground arith), ground arith)
  dead_rounds (o ∷ os) n m a b d t h =
      let (status, count) = dead_round q o m (dead_for limit s n) a.0 h d in
      let step =
        ap (λ l. seen_dead l q (dead_for limit s n)) t
        ∙ seen_dead-dead_for limit q s n (ground arith) in
      let (later, others) =
        dead_rounds os (n + 1) (check_health m o).0 a.1 (ground arith) (check_health-OneEach m o d)
          (ap (λ l. l.0) (check_health-limits m o) ∙ t) (status ∙ ap (λ r. some r.0) step) in
      (
        later ∙ ap (λ k. some (dead_for limit s k)) (ground arith),
        deaths_add q (check_health m o).1 (rounds (check_health m o).0 os).1
            ∙ ap₂ (λ i j. i + j)
                (count ∙ ap (λ r. deaths q r.1) step ∙ one_death q (n + 1) limit s.name) others
            ∙ count_step limit n (length os),
      )

at_start :
    (limit k : ℕ)
    → 1 ≤ limit
    → ◌≡◌ {A = ℕ}
        (if leb limit (0 + k) && not (leb limit 0) then 1 else 0)
        (if leb limit k then 1 else 0)
at_start limit k p = ground arith

-- In a monitor with one status for an agent and a failure threshold that is not zero, let rounds of checks,
-- fewer than 2 ^ 32, find an agent dead that was alive and had no failures before. The rounds report its
-- death once if there are as many of them as the threshold says, and never if there are fewer; its status
-- counts the rounds, and it says failed and not alive in the first case, warning and alive in the second
-- (as it was before if there are no rounds). The other agents may do what they like.
pub deaths-rounds :
    (m : HealthMonitor) (q : ℕ) (s : HealthStatus) (os : List (ℕ → Observation))
    → OneEach m
    → 1 ≤ m.failure_threshold
    → get m.agents q ≡ some s
    → s.alive ≡ true
    → s.consecutive_failures ≡ 0
    → AllDead q os
    → length os < u32_mod
    → (deaths q (rounds m os).1 ≡ (if leb m.failure_threshold (length os) then 1 else 0))
      × (get (rounds m os).0.agents q ≡ some (dead_for m.failure_threshold s (length os)))
deaths-rounds m q s os d p h a f dead b =
    let limit = m.failure_threshold in
    let (status, count) =
      dead_rounds q limit s os 0 m dead (ground arith) d refl
        (h ∙ ap some (dead_for_start limit s p a f)) in
    (
      count ∙ at_start limit (length os) p,
      status ∙ ap (λ k. some (dead_for limit s k)) (zero_add _),
    )
