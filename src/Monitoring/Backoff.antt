-- ===== src/Monitoring/Backoff.antt =====
-- The backoff between restart attempts in crates/monitoring/src/lib.rs.
use omnisec.Prelude.{
  ℕ, zero, suc, ◌+◌, ◌*◌, ◌/◌, ◌%◌, ◌^◌, ◌<◌, ◌≤◌, ◌≡◌, refl, ap, sym, ◌∙◌, min, arith,
}
use native.Mathlib.Nat.{
  pow-suc, mul_right_comm, mul-mod_left, one-mul, lt_of_le_of_lt, le_trans, le_of_eq,
  mul-le-mul_right, mul-le-mul_left, pow-le-pow_right, min-le_right, div-mul-le_self, mod-eq_of_lt,
}
use omnisec.Monitoring.Retry.{second, u64_mod, RestartConfig, RestartState, next_backoff}

abbrev secs : ℕ → ℕ
secs d = d / second

-- The whole seconds of the backoff if nothing overflows.
abbrev pub doubled : RestartConfig → ℕ → ℕ
doubled c n = secs c.initial_backoff * 2 ^ n

factor_small : (a b : ℕ) → 1 ≤ a → a * b < u64_mod → b < u64_mod
factor_small a b p h =
    lt_of_le_of_lt (le_trans (le_of_eq (sym (one-mul b))) (mul-le-mul_right b p)) h

min-le : (a b c : ℕ) → b ≤ c → min a b ≤ c
min-le a b c h = le_trans (min-le_right a b) h

high_power : (k : ℕ) → 2 ^ (k + 64) ≡ 2 ^ k * u64_mod
high_power zero = refl
high_power (suc k) =
    ap (λ n. 2 ^ n) (ground arith)
    ∙ pow-suc 2 (k + 64)
    ∙ ap (λ n. n * 2) (high_power k)
    ∙ mul_right_comm (2 ^ k) u64_mod 2
    ∙ ap (λ n. n * u64_mod) (sym (pow-suc 2 k))

module _ (c : RestartConfig) (s : RestartState) where
  pub next_backoff-exact :
      1 ≤ secs c.initial_backoff
      → doubled c s.attempt < u64_mod
      → next_backoff s c ≡ min (doubled c s.attempt) (secs c.max_backoff) * second
  unfolding next_backoff
  next_backoff-exact p h =
      ap (λ n. min n (secs c.max_backoff) * second)
        (ap (λ n. secs c.initial_backoff * n % u64_mod)
            (mod-eq_of_lt (factor_small (secs c.initial_backoff) (2 ^ s.attempt) p h))
          ∙ mod-eq_of_lt h)

  pub next_backoff_most : next_backoff s c ≤ c.max_backoff
  unfolding next_backoff
  next_backoff_most =
      le_trans (mul-le-mul_right second (min-le_right _ (secs c.max_backoff)))
        (div-mul-le_self c.max_backoff second)

  -- With 64 attempts or more the backoff is 0.
  pub next_backoff_wraps : (k : ℕ) → s.attempt ≡ k + 64 → next_backoff s c ≡ 0
  unfolding next_backoff
  next_backoff_wraps k h =
      ap (λ n. min (secs c.initial_backoff * (n % u64_mod) % u64_mod) (secs c.max_backoff) * second)
        (ap (λ n. 2 ^ n) h ∙ high_power k)
      ∙ ap (λ n. min (secs c.initial_backoff * n % u64_mod) (secs c.max_backoff) * second)
          (mul-mod_left (2 ^ k) u64_mod)
      ∙ ground arith

min_mono : (a b c : ℕ) → a ≤ b → min a c ≤ min b c
min_mono a b c h = ground arith

-- Later attempts wait at least as long, while the doubled seconds fit into 64 bits, and never longer than
-- the configured maximum.
next_backoff_mono :
    (c : RestartConfig) (s t : RestartState)
    → 1 ≤ secs c.initial_backoff
    → s.attempt ≤ t.attempt
    → doubled c t.attempt < u64_mod
    → (next_backoff s c ≤ next_backoff t c) × (next_backoff t c ≤ c.max_backoff)
next_backoff_mono c s t p h b =
    let grows = mul-le-mul_left (secs c.initial_backoff) (pow-le-pow_right (ground arith) h) in
    (
      rw (next_backoff-exact c s p (lt_of_le_of_lt grows b), next_backoff-exact c t p b)
          (mul-le-mul_right second (min_mono _ _ (secs c.max_backoff) grows)),
      next_backoff_most c t,
    )
