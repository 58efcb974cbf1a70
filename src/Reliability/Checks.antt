-- ===== src/Reliability/Checks.antt =====
-- What the monitor of crates/reliability/src/dependency.rs knows of a dependency after its checks.
use text.Mathlib.TextPositions.{eq_refl}
use mathlib.Core.Path.{ap₂}
use omnisec.Prelude.{
  ℕ, ◌+◌, ◌%◌, ◌<◌, ◌≡◌, refl, ap, subst, ◌∙◌, String, Bool, true, false, some, List, [], ◌∷◌,
  arith, leb, ◌==◌, if◌then◌else◌, length,
}
use omnisec.Prelude.Tables.{lookup, put, lookup-put}
use omnisec.Prelude.External.{FloatOps}
use omnisec.Reliability.Dependency.{
  DependencyStatus, healthy, degraded, failed, DependencyHealth, DependencyMonitor, u32_mod,
  u64_mod, counted, count_up, threshold_of, failed_status, CheckResult, uptime, checked,
  record_check_result,
}

lookup-put_same :
    {V : Type 0} (es : List (String × V)) (k : String) (v : V) → lookup (put es k v) k ≡ some v
lookup-put_same es k v = ground (arith, lookup-put es k k v, eq_refl k)

counted-count_up :
    (t : List (String × ℕ)) (name : String) (n : ℕ)
    → counted t name ≡ n
    → n + 1 < u64_mod
    → counted (count_up t name) name ≡ n + 1
unfolding count_up
counted-count_up t name n c h =
    rw (counted, lookup-put_same t name ((counted t name + 1) % u64_mod)) (omega (arith, c))

-- The failures in a row at the end, starting from n before the first check.
abbrev pub streak : ℕ → List CheckResult → ℕ
streak n [] = n
streak n (r ∷ rs) = streak (if r.success then 0 else n + 1) rs

abbrev pub successes : List CheckResult → ℕ
successes [] = 0
successes (r ∷ rs) = if r.success then successes rs + 1 else successes rs

-- The status that so many failures in a row stand for.
abbrev pub status_of : ℕ → ℕ → DependencyStatus
status_of threshold n = if n == 0 then healthy else if leb threshold n then failed else degraded

status-failed :
    (threshold k : ℕ) (old : DependencyStatus)
    → failed_status threshold (k + 1) old ≡ status_of threshold (k + 1)
unfolding failed_status
status-failed threshold k old = ground arith

status_case :
    (b : Bool) (threshold n k : ℕ) (old : DependencyStatus)
    → n ≡ k + 1
    → (if b then healthy else failed_status threshold n old)
      ≡ status_of threshold (if b then 0 else k + 1)
status_case true threshold n k old e = refl
status_case false threshold n k old e =
    ap (λ x. failed_status threshold x old) e ∙ status-failed threshold k old

counted_case :
    (b : Bool) (t : List (String × ℕ)) (name : String) (n : ℕ)
    → counted t name ≡ n
    → n + 1 < u64_mod
    → counted (if b then count_up t name else t) name ≡ (if b then n + 1 else n)
counted_case true t name n c h = counted-count_up t name n c h
counted_case false t name n c h = c

module _ (f : FloatOps) (name : String) where
  abbrev pub run : DependencyMonitor → List CheckResult → DependencyMonitor
  run m [] = m
  run m (r ∷ rs) = run (record_check_result f m name r) rs

  -- The monitor knows the dependency, with k failures in a row, and has counted its checks.
  abbrev pub Counted : DependencyMonitor → ℕ → ℕ → ℕ → Type 0
  Counted m k total successful =
      (h : DependencyHealth) × (lookup m.dependencies name ≡ some h)
      × (h.consecutive_failures ≡ k)
      × (counted m.total_checks name ≡ total)
      × (counted m.successful_checks name ≡ successful)

  -- It also has the status and the uptime that they stand for.
  abbrev pub Assessed : ℕ → DependencyMonitor → ℕ → ℕ → ℕ → Type 0
  Assessed threshold m k total successful =
      (h : DependencyHealth) × (lookup m.dependencies name ≡ some h)
      × (h.consecutive_failures ≡ k)
      × (counted m.total_checks name ≡ total)
      × (counted m.successful_checks name ≡ successful)
      × (h.status ≡ status_of threshold k)
      × (h.uptime_percent ≡ uptime f total successful)

  step-Assessed :
      (m : DependencyMonitor) (r : CheckResult) (k total successful : ℕ)
      → k + 1 < u32_mod
      → total + 1 < u64_mod
      → successful + 1 < u64_mod
      → Counted m k total successful
      → Assessed
          (threshold_of m.checks name)
          (record_check_result f m name r)
          (if r.success then 0 else k + 1)
          (total + 1)
          (if r.success then successful + 1 else successful)
  unfolding record_check_result checked threshold_of
  step-Assessed m r k total successful hk ht hs (h, there, failures, c, s) =
      let total' = counted-count_up m.total_checks name total c ht in
      let successful' = counted_case r.success m.successful_checks name successful s hs in
      let next : (h.consecutive_failures + 1) % u32_mod ≡ k + 1 = omega (arith, failures) in
      (
        checked f r (threshold_of m.checks name) (counted (count_up m.total_checks name) name)
            (counted (if r.success then count_up m.successful_checks name else m.successful_checks)
              name)
            h,
        rw (record_check_result, there) (lookup-put_same m.dependencies name _),
        ap (λ n. if r.success then 0 else n) next,
        total',
        successful',
        status_case r.success (threshold_of m.checks name) _ k h.status next,
        ap₂ (λ x y. uptime f x y) total' successful',
      )

  more-Assessed :
      (m : DependencyMonitor) (rs : List CheckResult) (k total successful total' successful' : ℕ)
      → total' ≡ total + length rs
      → successful' ≡ successful + successes rs
      → k + length rs < u32_mod
      → total + length rs < u64_mod
      → successful + length rs < u64_mod
      → Assessed (threshold_of m.checks name) m k total successful
      → Assessed (threshold_of m.checks name) (run m rs) (streak k rs) total' successful'
  unfolding record_check_result
  more-Assessed m [] k total successful total' successful' t s hk ht hs a =
      subst (λ x. Assessed (threshold_of m.checks name) m k x successful') (omega (arith, t))
        (subst (λ y. Assessed (threshold_of m.checks name) m k total y) (omega (arith, s)) a)
  more-Assessed m (r ∷ rs) k total successful total' successful' t s hk ht hs
        (h, there, failures, c, d, status, up) =
      more-Assessed (record_check_result f m name r) rs (if r.success then 0 else k + 1) (total + 1)
        (if r.success then successful + 1 else successful) total' successful' (omega (arith, t))
        (ground (arith, s)) (ground (arith, hk)) (omega (arith, ht)) (ground (arith, hs))
        (step-Assessed m r k total successful (omega (arith, hk)) (omega (arith, ht))
          (omega (arith, hs)) (h, there, failures, c, d))

  -- A dependency that the monitor knows, with no checks counted, after one check or more, fewer than
  -- 2 ^ 32: it has as many failures in a row as stand at the end of the results; its status is
  -- healthy for none, failed from the threshold of its first registration on, and degraded between;
  -- and its uptime is that of the number of checks and the number of successes.
  pub run-Assessed :
      (m : DependencyMonitor) (r : CheckResult) (rs : List CheckResult)
      → length (r ∷ rs) < u32_mod
      → Counted m 0 0 0
      → Assessed
          (threshold_of m.checks name)
          (run m (r ∷ rs))
          (streak 0 (r ∷ rs))
          (length (r ∷ rs))
          (successes (r ∷ rs))
  unfolding record_check_result
  run-Assessed m r rs h c =
      more-Assessed (record_check_result f m name r) rs (if r.success then 0 else 1) 1
        (if r.success then 1 else 0) (length (r ∷ rs)) (successes (r ∷ rs)) (omega arith)
        (ground arith) (ground (arith, h)) (omega (arith, h)) (ground (arith, h))
        (step-Assessed m r 0 0 0 (omega arith) (omega arith) (omega arith) c)
