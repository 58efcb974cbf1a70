-- ===== src/Fingerprint/Versions.antt =====
-- The versions of the fingerprints along any run of calls of crates/fingerprint/src/lib.rs, and the drift between two.
use omnisec.Prelude.{
  ℕ, suc, ◌+◌, ◌^◌, ◌<◌, ◌≤◌, ◌≡◌, refl, sym, ap, subst, ◌∙◌, inl, inr, String, false, Option, none,
  some, List, [], ◌∷◌, ◌++◌, length, length-append, All, arith, ◌==◌,
}
use mathlib.Core.List.{append_assoc, append-nil}
use omnisec.Prelude.External.{DateTime, FloatOps, F64Text, Uuid}
use omnisec.Fingerprint.Types.{AgentFingerprint}
use omnisec.Fingerprint.Builder.{Observation}
use omnisec.Fingerprint.Engine.{
  FingerprintManager, register_builder, observe, finalize_fingerprint, get_history, get_fingerprint,
  next_version, drift_between, drift_of, detect_drift,
}
use omnisec.Fingerprint.History.{
  finalize-Moved, get_history-finalize, get_history-finalize_other, drift_of-append,
  detect_drift_lem,
}

pub data Call : Type 0 where
  registering : ℕ → String → Call
  observing : ℕ → Observation → Call
  finalizing : Uuid → DateTime → ℕ → Call

-- The versions count from a number on.
abbrev pub Numbered : ℕ → List AgentFingerprint → Type 0
Numbered k [] = Unit
Numbered k (x ∷ xs) = (x.version ≡ k) × Numbered (suc k) xs

abbrev pub last_from : AgentFingerprint → List AgentFingerprint → AgentFingerprint
last_from x [] = x
last_from x (y ∷ ys) = last_from y ys

abbrev pub last : List AgentFingerprint → Option AgentFingerprint
last [] = none
last (x ∷ xs) = some (last_from x xs)

-- A history of at most `k` versions from 1 on, with the current fingerprint at its end.
abbrev pub Tracked : ℕ → List AgentFingerprint → Option AgentFingerprint → Type 0
Tracked k h current = Numbered 1 h × (last h ≡ current) × (length h ≤ k)

abbrev pub AllTracked : ℕ → FingerprintManager → Type 0
AllTracked k m = (q : ℕ) → Tracked k (get_history m q) (get_fingerprint m q)

abbrev pub Grown : List AgentFingerprint → List AgentFingerprint → Type 0
Grown h h' = (more : List AgentFingerprint) × (h' ≡ h ++ more)

last-append : (h : List AgentFingerprint) (x : AgentFingerprint) → last (h ++ x ∷ []) ≡ some x
last-append [] x = refl
last-append (y ∷ h) x = ap some (go y h)
  where
    go : (y : AgentFingerprint) (h : List AgentFingerprint) → last_from y (h ++ x ∷ []) ≡ x
    go y [] = refl
    go y (z ∷ h) = go z h

append-Numbered :
    (k : ℕ) (h : List AgentFingerprint) (x : AgentFingerprint)
    → Numbered k h
    → x.version ≡ k + length h
    → Numbered k (h ++ x ∷ [])
append-Numbered k [] x n e = (omega (arith, e), tt)
append-Numbered k (y ∷ h) x n e = (n.0, append-Numbered (suc k) h x n.1 (omega (arith, e)))

version-last :
    (k : ℕ) (x : AgentFingerprint) (xs : List AgentFingerprint)
    → Numbered k (x ∷ xs)
    → (last_from x xs).version ≡ k + length xs
version-last k x [] n = omega (arith, n.0)
version-last k x (y ∷ ys) n = omega (arith, version-last (suc k) y ys n.1)

next_lem :
    (h : List AgentFingerprint)
    → Numbered 1 h
    → length h + 1 < 2 ^ 32
    → next_version (last h) 1 ≡ 1 + length h
next_lem [] n b = refl
next_lem (x ∷ xs) n b = rw (version-last 1 x xs n) (omega (arith, b))

push-Tracked :
    (k : ℕ) (h : List AgentFingerprint) (current : Option AgentFingerprint) (x : AgentFingerprint)
    → Tracked k h current
    → x.version ≡ next_version current 1
    → k + 1 < 2 ^ 32
    → Tracked (k + 1) (h ++ x ∷ []) (some x)
push-Tracked k h current x (n, l, s) v b = (
  append-Numbered 1 h x n
      (v ∙ ap (λ o. next_version o 1) (sym l) ∙ next_lem h n (omega (arith, s, b))),
  last-append h x,
  omega (arith, length-append h (x ∷ []), s),
)

later-Tracked :
    (k : ℕ) (h : List AgentFingerprint) (current : Option AgentFingerprint)
    → Tracked k h current
    → Tracked (k + 1) h current
later-Tracked k h current (n, l, s) = (n, l, omega (arith, s))

module _ (f : FloatOps) (t : F64Text) where
  abbrev pub perform : FingerprintManager → Call → FingerprintManager
  perform m (registering pid name) = register_builder m pid name
  perform m (observing pid o) = observe m pid o
  perform m (finalizing id now pid) = (finalize_fingerprint f t id now m pid).0

  abbrev pub run : FingerprintManager → List Call → FingerprintManager
  run m [] = m
  run m (c ∷ cs) = run (perform m c) cs

  abbrev Kept : ℕ → FingerprintManager → FingerprintManager → ℕ → Type 0
  Kept k m m' q =
      Tracked (k + 1) (get_history m' q) (get_fingerprint m' q)
      × Grown (get_history m q) (get_history m' q)

  same-Kept :
      (k : ℕ) (m m' : FingerprintManager) (q : ℕ)
      → Tracked k (get_history m q) (get_fingerprint m q)
      → get_history m' q ≡ get_history m q
      → get_fingerprint m' q ≡ get_fingerprint m q
      → Kept k m m' q
  same-Kept k m m' q h e g = (
    subst (λ x. Tracked (k + 1) x (get_fingerprint m' q)) (sym e)
        (subst (Tracked (k + 1) (get_history m q)) (sym g) (later-Tracked k _ _ h)),
    ([], e ∙ sym (append-nil (get_history m q))),
  )

  finalize-Kept :
      (k : ℕ) (id : Uuid) (now : DateTime) (m : FingerprintManager) (pid q : ℕ)
      → k + 1 < 2 ^ 32
      → Tracked k (get_history m q) (get_fingerprint m q)
      → Kept k m (finalize_fingerprint f t id now m pid).0 q
  finalize-Kept k id now m pid q b h = elim (finalize-Moved f t id now m pid q) [
    | inl (e, g) ↦ same-Kept k m _ q h e g
    | inr (x, s, v, e, g) ↦ (
      subst (λ y. Tracked (k + 1) y (get_fingerprint (finalize_fingerprint f t id now m pid).0 q))
          (sym e)
          (subst (Tracked (k + 1) (get_history m q ++ x ∷ [])) (sym g)
            (push-Tracked k (get_history m q) (get_fingerprint m q) x h v b)),
      (x ∷ [], e),
    )
  ]

  perform-Kept :
      (k : ℕ) (c : Call) (m : FingerprintManager) (q : ℕ)
      → k + 1 < 2 ^ 32
      → Tracked k (get_history m q) (get_fingerprint m q)
      → Kept k m (perform m c) q
  unfolding register_builder observe get_history get_fingerprint
  perform-Kept k (registering pid name) m q b h =
      same-Kept k m (register_builder m pid name) q h refl refl
  perform-Kept k (observing pid o) m q b h = same-Kept k m (observe m pid o) q h refl refl
  perform-Kept k (finalizing id now pid) m q b h = finalize-Kept k id now m pid q b h

  -- In a run of calls, fewer than 2 ^ 32 with the versions before it, the versions of each agent keep counting
  -- 1, 2, 3 and so on without a gap, the current fingerprint is the last of the history, and no fingerprint that
  -- was in a history is changed or lost: the history after the run continues the one before it.
  pub run-Tracked :
      (cs : List Call) (k : ℕ) (m : FingerprintManager)
      → k + length cs < 2 ^ 32
      → AllTracked k m
      → AllTracked (k + length cs) (run m cs)
        × ((q : ℕ) → Grown (get_history m q) (get_history (run m cs) q))
  run-Tracked [] k m b h =
      (subst (λ n. AllTracked n m) (omega arith) h, λ q. ([], sym (append-nil (get_history m q))))
  run-Tracked (c ∷ cs) k m b h =
      let kept : (q : ℕ) → Kept k m (perform m c) q =
        λ q. perform-Kept k c m q (omega (arith, b)) (h q) in
      let (tracked, grown) =
        run-Tracked cs (k + 1) (perform m c) (omega (arith, b)) (λ q. (kept q).0) in
      (
        subst (λ n. AllTracked n (run (perform m c) cs)) (omega arith) tracked,
        λ q. both q (kept q).1 (grown q),
      )
    where
      both :
          (q : ℕ)
          → Grown (get_history m q) (get_history (perform m c) q)
          → Grown (get_history (perform m c) q) (get_history (run (perform m c) cs) q)
          → Grown (get_history m q) (get_history (run (perform m c) cs) q)
      both q (xs, e) (ys, g) =
          (xs ++ ys, g ∙ ap (λ h. h ++ ys) e ∙ append_assoc (get_history m q) xs ys)

  -- The calls other than a finalizing of the agent.
  abbrev pub Leaves : ℕ → Call → Type 0
  Leaves q (registering pid name) = Unit
  Leaves q (observing pid o) = Unit
  Leaves q (finalizing id now pid) = (pid == q) ≡ false

  leaves_lem :
      (c : Call) (m : FingerprintManager) (q : ℕ)
      → Leaves q c
      → get_history (perform m c) q ≡ get_history m q
  unfolding register_builder observe get_history
  leaves_lem (registering pid name) m q l = refl
  leaves_lem (observing pid o) m q l = refl
  leaves_lem (finalizing id now pid) m q l = get_history-finalize_other f t id now m pid q l

  run_keeps :
      (cs : List Call) (m : FingerprintManager) (q : ℕ)
      → All (Leaves q) cs
      → get_history (run m cs) q ≡ get_history m q
  run_keeps [] m q h = refl
  run_keeps (c ∷ cs) m q h = run_keeps cs (perform m c) q h.1 ∙ leaves_lem c m q h.0

  -- Where two fingerprints of an agent are finalized with any calls between them that finalize none of that
  -- agent, `detect_drift` answers the drift from the first of them to the second.
  pub detect_drift-finalize :
      (id id' : Uuid) (now now' : DateTime) (m : FingerprintManager) (cs : List Call) (pid : ℕ)
      (a b : AgentFingerprint)
      → (finalize_fingerprint f t id now m pid).1 ≡ some a
      → All (Leaves pid) cs
      → (finalize_fingerprint f t id' now' (run (finalize_fingerprint f t id now m pid).0 cs) pid).1
        ≡ some b
      → detect_drift f
          (finalize_fingerprint f t id' now'
            (run (finalize_fingerprint f t id now m pid).0 cs)
            pid).0
          pid
        ≡ some (drift_between f b a)
  detect_drift-finalize id id' now now' m cs pid a b first h second =
      let m1 = (finalize_fingerprint f t id now m pid).0 in
      let both =
        get_history-finalize f t id' now' (run m1 cs) pid b second
        ∙ ap (λ versions. versions ++ b ∷ [])
            (run_keeps cs m1 pid h ∙ get_history-finalize f t id now m pid a first)
        ∙ append_assoc (get_history m pid) (a ∷ []) (b ∷ []) in
      detect_drift_lem f _ pid ∙ (ap (drift_of f) both ∙ drift_of-append f (get_history m pid) a b)
