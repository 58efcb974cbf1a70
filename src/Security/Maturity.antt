-- ===== src/Security/Maturity.antt =====
-- When the profile manager of crates/security/src/lib.rs may raise an alert, along a run of its calls.
use omnisec.Prelude.{
  ℕ, ◌+◌, ◌*◌, ◌^◌, ◌<◌, ◌≤◌, ◌≡◌, ◌⊎◌, refl, ap, sym, subst, ◌∙◌, inl, inr, String, Bool, true,
  false, not, ◌&&◌, ◌==◌, some, List, [], ◌∷◌, length, arith, if◌then◌else◌,
}
use omnisec.Prelude.Maps.{found_or_not, get, alter, get-alter, get-put_new, mapped, has_key}
use omnisec.Prelude.External.{DateTime, FloatOps, F64Text}
use omnisec.Security.Risk.{BaselineLearning, new_baseline, learn, day}
use omnisec.Security.Learning.{OnBaseline, Earned, later-Earned, mapped-Earned, mature, pick}
use omnisec.Security.Manager.{
  AgentProfileManager, SecurityEvent, new_profile_manager, register_profiles,
  record_network_activity, take_in, raise_alerts, can_alert, get_baseline,
}

pub data Call : Type 0 where
  registering : DateTime → ℕ → String → Call
  activity : DateTime → ℕ → String → String → ℕ → String → ℕ → ℕ → Call

abbrev pub time_of : Call → DateTime
time_of (registering now pid name) = now
time_of (activity now pid domain ip port protocol bytes_in bytes_out) = now

-- The times of the calls do not go back.
abbrev pub InOrder : DateTime → List Call → Type 0
InOrder now [] = Unit
InOrder now (c ∷ cs) = (now ≤ time_of c) × InOrder (time_of c) cs

abbrev pub last_time : DateTime → List Call → DateTime
last_time now [] = now
last_time now (c ∷ cs) = last_time (time_of c) cs

abbrev pub AllEarned : ℕ → DateTime → AgentProfileManager → Type 0
AllEarned k now m = (q : ℕ) → OnBaseline (Earned k now) (get m.baseline_learners q)

gate :
    (c : Bool) (x : AgentProfileManager × List SecurityEvent) (m : AgentProfileManager)
    → x.0.baseline_learners ≡ m.baseline_learners
    → (let r : AgentProfileManager × List SecurityEvent = if c then x else (m, []) in
        (r.0.baseline_learners ≡ m.baseline_learners) × ((r.1 ≡ []) ⊎ (c ≡ true)))
gate true x m h = (h, inr refl)
gate false x m h = (refl, inl refl)

abbrev Effect : AgentProfileManager → ℕ → ℕ → AgentProfileManager × List SecurityEvent → Type 0
Effect m now pid r =
    ((r.0.baseline_learners ≡ m.baseline_learners) × (r.1 ≡ []))
    ⊎ ((r.0.baseline_learners ≡ alter m.baseline_learners pid (λ b. (learn now b).0))
        × ((r.1 ≡ [])
            ⊎ (can_alert
                  (record m {
                    baseline_learners = alter m.baseline_learners pid (λ b. (learn now b).0);
                  })
                  pid
                ≡ true)))

-- What an activity leaves of the baselines, and when it may give an event.
module _ (f : FloatOps) (t : F64Text) (m : AgentProfileManager) (now pid : ℕ) (domain ip : String)
    (port : ℕ) (protocol : String) (bytes_in bytes_out : ℕ) where
  abbrev after : AgentProfileManager × List SecurityEvent
  after = record_network_activity f t now m pid domain ip port protocol bytes_in bytes_out

  activity-Effect : Effect m now pid after
  unfolding record_network_activity take_in raise_alerts
  activity-Effect = elim (found_or_not (get m.destination_profiles pid)) [
    | inl h ↦ rw (record_network_activity, h) (inl (refl, refl))
    | inr (p, h) ↦ rw (record_network_activity, h) (inr (gate _ _ _ refl))
  ]

module _ (f : FloatOps) (t : F64Text) where
  abbrev pub perform : AgentProfileManager → Call → AgentProfileManager × List SecurityEvent
  perform m (registering now pid name) = (register_profiles now m pid name, [])
  perform m (activity now pid domain ip port protocol bytes_in bytes_out) =
      record_network_activity f t now m pid domain ip port protocol bytes_in bytes_out

  abbrev pub run : AgentProfileManager → List Call → AgentProfileManager
  run m [] = m
  run m (c ∷ cs) = run (perform m c).0 cs

  abbrev pub pid_of : Call → ℕ
  pid_of (registering now pid name) = pid
  pid_of (activity now pid domain ip port protocol bytes_in bytes_out) = pid

  -- A call answers events only about a mature baseline.
  abbrev pub Warranted : AgentProfileManager × List SecurityEvent → DateTime → ℕ → Type 0
  Warranted r now pid =
      (r.1 ≡ [])
      ⊎ ((b : BaselineLearning) × (get_baseline r.0 pid ≡ some b)
          × (b.learning_started + 8 * day ≤ now)
          × (1000 ≤ b.samples_collected))

  module _ (k now : ℕ) (b : k + 1 < 2 ^ 32) (m : AgentProfileManager) (h : AllEarned k now m) where
    learned :
        (later pid q : ℕ)
        → now ≤ later
        → OnBaseline
            (Earned (k + 1) later)
            (get (alter m.baseline_learners pid (λ x. (learn later x).0)) q)
    learned later pid q o =
        pick (k + 1) later (pid == q) (mapped (λ x. (learn later x).0) (get m.baseline_learners q))
          (get m.baseline_learners q) _
          (get-alter m.baseline_learners pid q (λ x. (learn later x).0))
          (mapped-Earned k now later b o (get m.baseline_learners q) (h q))
          (later-Earned k now later o (get m.baseline_learners q) (h q))

    case-Effect :
        (later pid : ℕ)
        → now ≤ later
        → (r : AgentProfileManager × List SecurityEvent) → Effect m later pid r
        → AllEarned (k + 1) later r.0 × Warranted r later pid
    unfolding get_baseline
    case-Effect later pid o r (inl (e, n)) = (
      (λ q.
          subst (λ bs. OnBaseline (Earned (k + 1) later) (get bs q)) (sym e)
            (later-Earned k now later o (get m.baseline_learners q) (h q))),
      inl n,
    )
    case-Effect later pid o r (inr (e, inl n)) = (
      (λ q.
          subst (λ bs. OnBaseline (Earned (k + 1) later) (get bs q)) (sym e)
            (learned later pid q o)),
      inl n,
    )
    case-Effect later pid o r (inr (e, inr a)) =
        let (x, found, late, much) = mature (k + 1) later _ (learned later pid pid o) a in
        (
          (λ q.
              subst (λ bs. OnBaseline (Earned (k + 1) later) (get bs q)) (sym e)
                (learned later pid q o)),
          inr (x, ap (λ bs. get bs pid) e ∙ found, late, much),
        )

    perform-Earned :
        (c : Call)
        → now ≤ time_of c
        → AllEarned (k + 1) (time_of c) (perform m c).0
          × Warranted (perform m c) (time_of c) (pid_of c)
    unfolding register_profiles new_baseline get_baseline
    perform-Earned (registering later pid name) o = (
      (λ q.
          pick (k + 1) later (pid == q && not (has_key m.baseline_learners pid))
            (some (new_baseline later pid name)) (get m.baseline_learners q) _
            (get-put_new m.baseline_learners pid q (new_baseline later pid name))
            (refl, refl, ground arith, tt)
            (later-Earned k now later o (get m.baseline_learners q) (h q))),
      inl refl,
    )
    perform-Earned (activity later pid domain ip port protocol bytes_in bytes_out) o =
        case-Effect later pid o
          (record_network_activity f t later m pid domain ip port protocol bytes_in bytes_out)
          (activity-Effect f t m later pid domain ip port protocol bytes_in bytes_out)

  run-Earned :
      (cs : List Call) (k now : ℕ) (m : AgentProfileManager)
      → k + length cs < 2 ^ 32
      → InOrder now cs
      → AllEarned k now m
      → (c : Call) → last_time now cs ≤ time_of c
      → k + length cs + 1 < 2 ^ 32
      → Warranted (perform (run m cs) c) (time_of c) (pid_of c)
  run-Earned [] k now m b o h c l e = (perform-Earned k now (ground (arith, e)) m h c l).1
  run-Earned (d ∷ cs) k now m b o h c l e =
      run-Earned cs (k + 1) (time_of d) (perform m d).0 (ground (arith, b)) o.1
        (perform-Earned k now (ground (arith, b)) m h d o.0).0 c l (ground (arith, e))

  -- A manager that starts empty, after fewer than 2 ^ 32 - 1 registrations and activities whose times do not go
  -- back: an activity answers security events only if the baseline of its process has started at least eight
  -- days before and has taken at least 1000 samples; before that it answers none, whatever the traffic.
  pub run-Warranted :
      (cs : List Call) (c : Call)
      → InOrder 0 cs
      → last_time 0 cs ≤ time_of c
      → length cs + 1 < 2 ^ 32
      → Warranted (perform (run new_profile_manager cs) c) (time_of c) (pid_of c)
  unfolding new_profile_manager get
  run-Warranted cs c o l b =
      run-Earned cs 0 0 new_profile_manager (ground (arith, b)) o (λ q. tt) c l (ground (arith, b))
