-- ===== src/Monitoring/Local.antt =====
-- A check of crates/monitoring/src/lib.rs treats each process by itself: what it leaves of a process
-- depends on what the monitor knew of that process and on its own observation.
use mathlib.Core.Path.{ap₂, subst}
use omnisec.Prelude.{
  ℕ, ◌+◌, ◌%◌, ◌≡◌, refl, ap, sym, ◌∙◌, inl, inr, Bool, true, false, ◌&&◌, ◌==◌, Option, none, some,
  List, [], ◌∷◌, ◌++◌, arith, leb, if◌then◌else◌, any, ==_iff, Bool-cases,
}
use omnisec.Prelude.Maps.{Distinct, keys, get_absent, get, get-put, get-erase}
use omnisec.Monitoring.Health.{
  HealthStatus, HealthMonitor, HealthEvent, Observation, u32_mod, or_zero, tick_delta, detect_hung,
  seen_alive, seen_dead, check_status, check_process, check_all, check_health,
}

-- What the monitor knows of one process.
pub record Vitals : Type 0 where
  pub status : Option HealthStatus
  pub last : Option ℕ
  pub zeros : Option ℕ

abbrev pub vitals : HealthMonitor → ℕ → Vitals
vitals m pid = record {
  status = get m.agents pid;
  last = get m.last_cpu_ticks pid;
  zeros = get m.zero_delta_cycles pid;
}

-- The two limits of a monitor.
abbrev pub limits : HealthMonitor → ℕ × ℕ
limits m = (m.failure_threshold, m.hang_threshold_cycles)

-- Whether the process hangs: the ticks have not grown, `cycles` times in a row.
abbrev pub hangs : ℕ → Vitals → Option ℕ → Bool
hangs cycles v none = false
hangs cycles v (some t) = tick_delta t v.last == 0 && leb cycles ((or_zero v.zeros + 1) % u32_mod)

abbrev pub last_after : Vitals → Option ℕ → Option ℕ
last_after v none = v.last
last_after v (some t) = some t

abbrev pub zeros_after : Vitals → Option ℕ → Option ℕ
zeros_after v none = v.zeros
zeros_after v (some t) =
    if tick_delta t v.last == 0 then some ((or_zero v.zeros + 1) % u32_mod) else none

-- What one check makes of a process, and the events.
abbrev pub status_after :
    ℕ × ℕ → ℕ → Observation → Vitals → HealthStatus → HealthStatus × List HealthEvent
status_after l pid o v s =
    if o.is_alive then seen_alive pid s o.stats (hangs l.1 v o.ticks) else seen_dead l.0 pid s

abbrev pub vitals_with : ℕ × ℕ → ℕ → Observation → Vitals → HealthStatus → Vitals
vitals_with l pid o v s = record {
  status = some (status_after l pid o v s).0;
  last = if o.is_alive then last_after v o.ticks else none;
  zeros = if o.is_alive then zeros_after v o.ticks else none;
}

abbrev pub vitals_after : ℕ × ℕ → ℕ → Observation → Vitals → Vitals
vitals_after l pid o v = elim v.status [ none ↦ v | some s ↦ vitals_with l pid o v s ]

abbrev pub events_after : ℕ × ℕ → ℕ → Observation → Vitals → List HealthEvent
events_after l pid o v = elim v.status [ none ↦ [] | some s ↦ (status_after l pid o v s).1 ]

Vitals-if :
    (b : Bool) (v w x : Vitals)
    → v.status ≡ (if b then w.status else x.status)
    → v.last ≡ (if b then w.last else x.last)
    → v.zeros ≡ (if b then w.zeros else x.zeros)
    → v ≡ (if b then w else x)
Vitals-if true v w x h k l = ground arith
Vitals-if false v w x h k l = ground arith

module _ (m : HealthMonitor) (pid : ℕ) where
  pub detect_hung_lem :
      (ticks : Option ℕ) (q : ℕ)
      → ((detect_hung m pid ticks).1 ≡ hangs m.hang_threshold_cycles (vitals m pid) ticks)
        × ((detect_hung m pid ticks).0.agents ≡ m.agents)
        × (limits (detect_hung m pid ticks).0 ≡ limits m)
        × (get (detect_hung m pid ticks).0.last_cpu_ticks q
            ≡ (if pid == q then last_after (vitals m pid) ticks else get m.last_cpu_ticks q))
        × (get (detect_hung m pid ticks).0.zero_delta_cycles q
            ≡ (if pid == q then zeros_after (vitals m pid) ticks else get m.zero_delta_cycles q))
  unfolding detect_hung
  detect_hung_lem none q = (refl, refl, refl, ground arith, ground arith)
  detect_hung_lem (some t) q = elim (Bool-cases (tick_delta t (get m.last_cpu_ticks pid) == 0)) [
    | inl e ↦
        rw e
          (refl, refl, refl, get-put m.last_cpu_ticks pid q t, get-put m.zero_delta_cycles pid q _)
    | inr e ↦
        rw e
          (refl, refl, refl, get-put m.last_cpu_ticks pid q t, get-erase m.zero_delta_cycles pid q)
  ]

  vitals-check_status :
      (o : Observation) (s : HealthStatus) (q : ℕ)
      → (vitals (check_status m pid o s).0 q
          ≡ (if pid == q then vitals_with (limits m) pid o (vitals m pid) s else vitals m q))
        × (limits (check_status m pid o s).0 ≡ limits m)
        × ((check_status m pid o s).1 ≡ (status_after (limits m) pid o (vitals m pid) s).1)
  unfolding check_status
  vitals-check_status o s q = elim (Bool-cases o.is_alive) [
    | inl a ↦
        let (h, ag, li, la, ze) = detect_hung_lem o.ticks q in
        rw a (
          Vitals-if (pid == q) _ _ _
              (get-put (detect_hung m pid o.ticks).0.agents pid q _
                ∙ ap₂ (λ x y. if pid == q then some (seen_alive pid s o.stats x).0 else get y q) h
                    ag)
              la ze,
          li,
          ap (λ x. (seen_alive pid s o.stats x).1) h,
        )
    | inr a ↦ rw a (
      Vitals-if (pid == q) _ _ _ (get-put m.agents pid q _) (get-erase m.last_cpu_ticks pid q)
          (get-erase m.zero_delta_cycles pid q),
      refl,
      refl,
    )
  ]

  at_key : (q : ℕ) → vitals m q ≡ (if pid == q then vitals m pid else vitals m q)
  at_key q = elim (Bool-cases (pid == q)) [
    | inl e ↦ rw e (ap (vitals m) (sym ((==_iff pid q).0 e)))
    | inr e ↦ rw e refl
  ]

  process_in :
      (o : Observation) (q : ℕ) (found : Option HealthStatus)
      → (let r : HealthMonitor × List HealthEvent = elim found [
        | none ↦ (m, [])
        | some s ↦ check_status m pid o s
      ] in
          let w : Vitals = elim found [
            | none ↦ vitals m pid
            | some s ↦ vitals_with (limits m) pid o (vitals m pid) s
          ] in
          let events : List HealthEvent = elim found [
            | none ↦ []
            | some s ↦ (status_after (limits m) pid o (vitals m pid) s).1
          ] in
          (vitals r.0 q ≡ (if pid == q then w else vitals m q))
          × (limits r.0 ≡ limits m)
          × (r.1 ≡ events))
  process_in o q none = (at_key q, refl, refl)
  process_in o q (some s) = vitals-check_status o s q

  vitals-check_process :
      (o : Observation) (q : ℕ)
      → (vitals (check_process m pid o).0 q
          ≡ (if pid == q then vitals_after (limits m) pid o (vitals m pid) else vitals m q))
        × (limits (check_process m pid o).0 ≡ limits m)
        × ((check_process m pid o).1 ≡ events_after (limits m) pid o (vitals m pid))
  unfolding check_process
  vitals-check_process o q = process_in o q (get m.agents pid)

-- The events of a round, process by process.
abbrev pub events_of : ℕ × ℕ → (ℕ → Observation) → (ℕ → Vitals) → List ℕ → List HealthEvent
events_of l observe w [] = []
events_of l observe w (p ∷ ps) = events_after l p (observe p) (w p) ++ events_of l observe w ps

differ :
    (p q : ℕ) (ps : List ℕ)
    → any (λ j. j == p) ps ≡ false
    → any (λ j. j == q) ps ≡ true
    → (p == q) ≡ false
differ p q ps h k = elim (Bool-cases (p == q)) [
  | inl e ↦ ground (arith, subst (λ i. any (λ j. j == i) ps ≡ false) ((==_iff p q).0 e) h, k)
  | inr e ↦ e
]

-- One more process in a round of processes that are all different.
step_once :
    (p : ℕ) (ps : List ℕ) (f : ℕ → Vitals → Vitals) (v u : ℕ → Vitals) (q : ℕ)
    → any (λ j. j == p) ps ≡ false
    → v q ≡ (if p == q then f p (u p) else u q)
    → (if any (λ j. j == q) ps then f q (v q) else v q)
      ≡ (if any (λ j. j == q) (p ∷ ps) then f q (u q) else u q)
unfolding any
step_once p ps f v u q d h = elim (Bool-cases (p == q)) [
  | inl e ↦
      let same = (==_iff p q).0 e in
      let absent = subst (λ i. any (λ j. j == i) ps ≡ false) same d in
      let value = subst (λ i. v q ≡ f i (u i)) same (h ∙ (rw e refl)) in rw (e, absent) value
  | inr e ↦ let value = h ∙ ap (λ b. if b then f p (u p) else u q) e in rw (e, value) refl
]

module _ (observe : ℕ → Observation) where
  events_of_cong :
      (l : ℕ × ℕ) (w v : ℕ → Vitals) (ps : List ℕ)
      → ((q : ℕ) → any (λ j. j == q) ps ≡ true → w q ≡ v q)
      → events_of l observe w ps ≡ events_of l observe v ps
  unfolding any
  events_of_cong l w v [] h = refl
  events_of_cong l w v (p ∷ ps) h =
      ap₂ (λ x y. x ++ y) (ap (events_after l p (observe p)) (h p (ground arith)))
        (events_of_cong l w v ps (λ q k. h q (ground arith)))

  vitals-check_all :
      (ps : List ℕ) (m : HealthMonitor)
      → Distinct ps
      → (q : ℕ)
      → vitals (check_all m observe ps).0 q ≡ (
          if any (λ j. j == q) ps
          then vitals_after (limits m) q (observe q) (vitals m q)
          else vitals m q)
  unfolding check_all any
  vitals-check_all [] m d q = refl
  vitals-check_all (p ∷ ps) m d q =
      let (here, li, _) = vitals-check_process m p (observe p) q in
      vitals-check_all ps (check_process m p (observe p)).0 d.1 q
      ∙ ap
          (λ l.
            if any (λ j. j == q) ps
            then vitals_after l q (observe q) (vitals (check_process m p (observe p)).0 q)
            else vitals (check_process m p (observe p)).0 q)
          li
      ∙ step_once p ps (λ i. vitals_after (limits m) i (observe i))
          (vitals (check_process m p (observe p)).0) (vitals m) q d.0 here

  pub limits-check_all :
      (ps : List ℕ) (m : HealthMonitor) → limits (check_all m observe ps).0 ≡ limits m
  unfolding check_all
  limits-check_all [] m = refl
  limits-check_all (p ∷ ps) m =
      limits-check_all ps (check_process m p (observe p)).0
      ∙ (vitals-check_process m p (observe p) p).1

  events-check_all :
      (ps : List ℕ) (m : HealthMonitor)
      → Distinct ps
      → (check_all m observe ps).1 ≡ events_of (limits m) observe (vitals m) ps
  unfolding check_all any
  events-check_all [] m d = refl
  events-check_all (p ∷ ps) m d =
      let m' = (check_process m p (observe p)).0 in
      let (_, li, ev) = vitals-check_process m p (observe p) p in
      ap₂ (λ x y. x ++ y) ev
        (events-check_all ps m' d.1
          ∙ ap (λ l. events_of l observe (vitals m') ps) li
          ∙ events_of_cong (limits m) (vitals m') (vitals m) ps (λ q k.
            (vitals-check_process m p (observe p) q).0
            ∙ ap (λ b. if b then vitals_after (limits m) p (observe p) (vitals m p) else vitals m q)
                (differ p q ps d.0 k)))

  after_absent :
      (m : HealthMonitor) (q : ℕ)
      → get m.agents q ≡ none
      → vitals_after (limits m) q (observe q) (vitals m q) ≡ vitals m q
  after_absent m q h = rw h refl

  -- A round of checks, where no pid stands twice among the monitored ones: what the monitor then knows
  -- of each process, monitored or not, is what one check makes of what it knew of that process and of
  -- the observation of that process alone, and the events are those of the processes, one after the other.
  pub check_health-vitals :
      (m : HealthMonitor)
      → Distinct (keys m.agents)
      → ((q : ℕ)
          → vitals (check_health m observe).0 q
            ≡ vitals_after (limits m) q (observe q) (vitals m q))
        × ((check_health m observe).1 ≡ events_of (limits m) observe (vitals m) (keys m.agents))
  unfolding check_health
  check_health-vitals m d = (
    λ q. elim (Bool-cases (any (λ j. j == q) (keys m.agents))) [
      | inl a ↦
          vitals-check_all (keys m.agents) m d q
          ∙ ap (λ b. if b then vitals_after (limits m) q (observe q) (vitals m q) else vitals m q) a
      | inr a ↦
          vitals-check_all (keys m.agents) m d q
          ∙ ap (λ b. if b then vitals_after (limits m) q (observe q) (vitals m q) else vitals m q) a
          ∙ sym (after_absent m q (get_absent m.agents q a))
    ],
    events-check_all (keys m.agents) m d,
  )
