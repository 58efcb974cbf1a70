-- ===== src/Monitoring/Pacing.antt =====
-- How the restart engine of crates/monitoring/src/lib.rs paces the attempts of an agent.
use omnisec.Prelude.{
  ℕ, ◌+◌, ◌-◌, ◌%◌, ◌<◌, ◌≤◌, ◌≡◌, refl, ap, sym, subst, ◌∙◌, Bool, true, false, not, ◌&&◌, ◌==◌,
  ==_iff, Option, none, some, List, [], ◌∷◌, leb, arith, inl, inr, Bool-cases, if◌then◌else◌,
  String,
}
use omnisec.Prelude.Maps.{get, get-alter, get-put_new, get-erase, mapped, alter, has_key}
use omnisec.Monitoring.Health.{u32_mod}
use omnisec.Monitoring.Retry.{
  RestartConfig, RestartState, RestartEngine, next_backoff, can_retry, ready, with_config,
  new_restart_state, record_attempt, mark_recovered, state_record_attempt, state_mark_recovered,
  attempt_count, register_restart, unregister_restart, gives_up, cools_down,
}

-- What the client does: it asks for a pid whether it is ready, and records an attempt if so; agents come, go
-- and recover. Each event carries the answers of the clock.
pub data Event : Type 0 where
  registering : ℕ → String → Event
  unregistering : ℕ → Event
  attempt : ℕ → ℕ → ℕ → ℕ → Event
  recovered : ℕ → ℕ → Event

abbrev pub happen : RestartEngine → Event → RestartEngine
happen e (registering pid name) = register_restart e pid name
happen e (unregistering pid) = unregister_restart e pid
happen e (attempt pid now later at) = if ready e now later pid then record_attempt e at pid else e
happen e (recovered pid now) = mark_recovered e now pid

abbrev pub happens : RestartEngine → List Event → RestartEngine
happens e [] = e
happens e (v ∷ vs) = happens (happen e v) vs

abbrev count_of : Option RestartState → ℕ
count_of found = elim found [ none ↦ 0 | some s ↦ s.attempt ]

-- The configuration allows `most` attempts, and no agent has made more.
abbrev pub Within : ℕ → RestartEngine → Type 0
Within most e = (e.config.max_retries ≡ some most) × ((q : ℕ) → count_of (get e.agents q) ≤ most)

choose :
    (most : ℕ) (c : Bool) (x y z : Option RestartState)
    → z ≡ (if c then x else y)
    → (c ≡ true → count_of x ≤ most)
    → count_of y ≤ most
    → count_of z ≤ most
choose most true x y z e h g = subst (λ w. count_of w ≤ most) (sym e) (h refl)
choose most false x y z e h g = subst (λ w. count_of w ≤ most) (sym e) g

recovered_none :
    (c : RestartConfig) (now most : ℕ) (found : Option RestartState)
    → count_of (mapped (state_mark_recovered c now) found) ≤ most
unfolding state_mark_recovered
recovered_none c now most none = ground arith
recovered_none c now most (some s) = ground arith

module _ (e : RestartEngine) (most now later at : ℕ) (b : most < u32_mod)
    (m : e.config.max_retries ≡ some most) where
  no_retry : (s : RestartState) → leb most s.attempt ≡ true → can_retry s e.config now later ≡ false
  unfolding can_retry
  no_retry s a = rw (m, a) refl

  one_more :
      (found : Option RestartState)
      → elim found [ none ↦ false | some s ↦ can_retry s e.config now later ] ≡ true
      → count_of (mapped (state_record_attempt at) found) ≤ most
  unfolding can_retry state_record_attempt
  one_more none h = ground arith
  one_more (some s) h = elim (Bool-cases (leb most s.attempt)) [
    | inl a ↦ ground (arith, h, no_retry s a)
    | inr a ↦ ground (arith, a, b)
  ]

happen-Within :
    (most : ℕ)
    → most < u32_mod
    → (e : RestartEngine) (v : Event) → Within most e
    → Within most (happen e v)
unfolding register_restart new_restart_state unregister_restart mark_recovered record_attempt ready
happen-Within most b e (registering pid name) (m, h) = (
  m,
  λ q.
      choose most (pid == q && not (has_key e.agents pid)) (some (new_restart_state pid name))
        (get e.agents q) _ (get-put_new e.agents pid q _) (λ c. ground arith) (h q),
)
happen-Within most b e (unregistering pid) (m, h) = (
  m,
  λ q.
      choose most (pid == q) none (get e.agents q) _ (get-erase e.agents pid q) (λ c. ground arith)
        (h q),
)
happen-Within most b e (recovered pid now) (m, h) = (
  m,
  λ q.
      choose most (pid == q) (mapped (state_mark_recovered e.config now) (get e.agents q))
        (get e.agents q) _ (get-alter e.agents pid q _)
        (λ c. recovered_none e.config now most (get e.agents q)) (h q),
)
happen-Within most b e (attempt pid now later at) (m, h) =
    elim (Bool-cases (ready e now later pid)) [
      | inl a ↦ rw a (
        m,
        λ q.
            choose most (pid == q) (mapped (state_record_attempt at) (get e.agents q))
              (get e.agents q) _ (get-alter e.agents pid q _)
              (λ c.
                subst (λ i. count_of (mapped (state_record_attempt at) (get e.agents i)) ≤ most)
                  ((==_iff pid q).0 c) (one_more e most now later at b m (get e.agents pid) a))
              (h q),
      )
      | inr a ↦ rw a (m, h)
    ]

happens-Within :
    (most : ℕ)
    → most < u32_mod
    → (vs : List Event) (e : RestartEngine) → Within most e
    → Within most (happens e vs)
happens-Within most b [] e h = h
happens-Within most b (v ∷ vs) e h =
    happens-Within most b vs (happen e v) (happen-Within most b e v h)

-- If an attempt is recorded only when the engine answers that the agent is ready, then an engine which is
-- configured with a maximum of attempts counts, for no agent and after no events, more than that maximum.
pub happens-with_config :
    (c : RestartConfig) (most : ℕ) (vs : List Event) (q : ℕ)
    → c.max_retries ≡ some most
    → most < u32_mod
    → attempt_count (happens (with_config c) vs) q ≤ most
unfolding with_config attempt_count get
happens-with_config c most vs q m b = (happens-Within most b vs (with_config c) (m, none_there)).1 q
  where
    none_there : (i : ℕ) → count_of (get {V = RestartState} [] i) ≤ most
    none_there i = ground arith

guards : (a b c : Bool) → (if a then false else if b then false else c) ≡ (not a && not b && c)
guards true b c = refl
guards false true c = refl
guards false false c = refl

module _ (e : RestartEngine) (pid at now later : ℕ) where
  retry_in :
      (found : Option RestartState)
      → elim (mapped (state_record_attempt at) found) [
        | none ↦ false
        | some s ↦ can_retry s e.config now later
      ]
        ≡ elim found [
          | none ↦ false
          | some s ↦
              not (gives_up e.config.max_retries ((s.attempt + 1) % u32_mod))
              && not (cools_down s.cooldown_until now)
              && leb (next_backoff (state_record_attempt at s) e.config) (later - at)
        ]
  unfolding can_retry state_record_attempt
  retry_in none = refl
  retry_in (some s) =
      guards (gives_up e.config.max_retries ((s.attempt + 1) % u32_mod))
        (cools_down s.cooldown_until now)
        (leb (next_backoff (state_record_attempt at s) e.config) (later - at))

  at_pid :
      get (alter e.agents pid (state_record_attempt at)) pid
      ≡ mapped (state_record_attempt at) (get e.agents pid)
  at_pid =
      get-alter e.agents pid pid (state_record_attempt at)
      ∙ ap
          (λ b. if b then mapped (state_record_attempt at) (get e.agents pid) else get e.agents pid)
          ((==_iff pid pid).1 refl)

-- Once an attempt is recorded for an agent that the engine knows, at the time `at`, the agent is ready again
-- just when its attempts are not used up, it does not cool down any more, and the backoff for the number of
-- attempts it now has, counted from `at`, is over. An agent that the engine does not know is never ready.
ready-record_attempt :
    (e : RestartEngine) (pid at now later : ℕ)
    → ready (record_attempt e at pid) now later pid ≡ elim (get e.agents pid) [
      | none ↦ false
      | some s ↦
          not (gives_up e.config.max_retries ((s.attempt + 1) % u32_mod))
          && not (cools_down s.cooldown_until now)
          && leb (next_backoff (state_record_attempt at s) e.config) (later - at)
    ]
unfolding ready record_attempt
ready-record_attempt e pid at now later =
    ap (λ found. elim found [ none ↦ false | some s ↦ can_retry s e.config now later ])
      (at_pid e pid at now later)
    ∙ retry_in e pid at now later (get e.agents pid)
