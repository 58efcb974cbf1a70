-- ===== src/Restart/Attempts.antt =====
-- What `attempt_restart` of crates/restart/src/lib.rs returns.
use omnisec.Prelude.{
  ℕ, zero, suc, ◌+◌, ◌<◌, String, ◌≡◌, refl, ap, ◌∙◌, ◌⊎◌, inl, inr, true, false, none, some, List,
  [], ◌∷◌, arith,
}
use native.Mathlib.Nat.{add-zero}
use omnisec.Prelude.External.{FloatOps, Duration, DurationOps}
use omnisec.Restart.Engine.{
  RestartConfig, RestartAttempt, RestartResult, AgentState, Answer, started, error, Observed,
  attempt_of, Outcome, round, result_of, calculate_delay, attempt_loop, attempt_restart, is_started,
}

module _ (f : FloatOps) (t : DurationOps) (config : RestartConfig) (agent : AgentState)
    (world : ℕ → Observed) where
  -- The attempts numbered n, n + 1, …, of which there are k.
  pub attempts_from : ℕ → ℕ → List RestartAttempt
  attempts_from n zero = []
  attempts_from n (suc k) = attempt_of agent n (world n) ∷ attempts_from (n + 1) k

  -- The delays after them.
  pub delays_from : ℕ → ℕ → List Duration
  delays_from n zero = []
  delays_from n (suc k) = calculate_delay f t config n ∷ delays_from (n + 1) k

  -- The k attempts from number n on fail.
  abbrev pub FailFrom : ℕ → ℕ → Type 0
  FailFrom n zero = Unit
  FailFrom n (suc k) = (is_started (world n).answer ≡ false) × FailFrom (n + 1) k

  -- The rounds end at the first attempt that succeeds, number n + k, or they all fail.
  abbrev pub Rounds : ℕ → ℕ → Outcome → Type 0
  Rounds n left result =
      ((k : ℕ) × (pid : ℕ) × (k < left)
        × FailFrom n k
        × ((world (n + k)).answer ≡ started pid)
        × (result ≡ (attempts_from n (suc k), some pid, delays_from n k)))
      ⊎ (FailFrom n left × (result ≡ (attempts_from n left, none, delays_from n left)))

  Answer-cases : (a : Answer) → ((pid : ℕ) × (a ≡ started pid)) ⊎ ((e : String) × (a ≡ error e))
  Answer-cases (started pid) = inl (pid, refl)
  Answer-cases (error e) = inr (e, refl)

  attempt_loop-Rounds : (n left : ℕ) → Rounds n left (attempt_loop f t config agent world n left)
  unfolding attempt_loop attempts_from delays_from
  attempt_loop-Rounds n zero = inr (tt, refl)
  attempt_loop-Rounds n (suc left) =
      let next = round f t config n (attempt_of agent n (world n)) in
      let rest = attempt_loop f t config agent world (n + 1) left in
      elim (Answer-cases (world n).answer) [
        | inl (pid, e) ↦ inl (
          0,
          pid,
          omega arith,
          tt,
          (ap (λ (i : ℕ). (world i).answer) (add-zero n)) ∙ e,
          ap (next rest) e,
        )
        | inr (msg, e) ↦ elim (attempt_loop-Rounds (n + 1) left) [
          | inl (k, pid, lt, fails, won, r) ↦ inl (
            suc k,
            pid,
            omega arith,
            (ap is_started e, fails),
            ap (λ (i : ℕ). (world i).answer) (omega arith) ∙ won,
            ap (next rest) e ∙ ap (λ (o : Outcome). next o (error msg)) r,
          )
          | inr (fails, r) ↦ inr (
            (ap is_started e, fails),
            ap (next rest) e ∙ ap (λ (o : Outcome). next o (error msg)) r,
          )
        ]
      ]

  -- The result and the sleeps where the attempt number k + 1 is the first that succeeds, and where
  -- each attempt fails.
  abbrev pub Attempted : ℕ → RestartResult × List Duration → Type 0
  Attempted total (result, delays) =
      ((k : ℕ) × (pid : ℕ) × (k < config.max_retries)
        × FailFrom 1 k
        × ((world (1 + k)).answer ≡ started pid)
        × (result ≡ record {
          success = true;
          attempts = attempts_from 1 (suc k);
          total_duration_ms = total;
          final_pid = some pid;
        })
        × (delays ≡ delays_from 1 k))
      ⊎ (FailFrom 1 config.max_retries
          × (result ≡ record {
            success = false;
            attempts = attempts_from 1 config.max_retries;
            total_duration_ms = total;
            final_pid = none;
          })
          × (delays ≡ delays_from 1 config.max_retries))

  -- `attempt_restart` makes attempts number 1, 2, … until one succeeds, and at most `max_retries`:
  -- it reports success with the pid of the first attempt that succeeds, or failure with no pid
  -- where each fails; its record holds exactly the attempts made, and it sleeps after each failure,
  -- the last one included.
  pub attempt_restart_lem :
      (total : ℕ) → Attempted total (attempt_restart f t config agent world total)
  unfolding attempt_restart
  attempt_restart_lem total = elim (attempt_loop-Rounds 1 config.max_retries) [
    | inl (k, pid, lt, fails, won, r) ↦ inl (
      k,
      pid,
      lt,
      fails,
      won,
      ap (λ (o : Outcome). (result_of total o).0) r,
      ap (λ (o : Outcome). (result_of total o).1) r,
    )
    | inr (fails, r) ↦ inr (
      fails,
      ap (λ (o : Outcome). (result_of total o).0) r,
      ap (λ (o : Outcome). (result_of total o).1) r,
    )
  ]
