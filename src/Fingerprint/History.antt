-- ===== src/Fingerprint/History.antt =====
-- What `finalize_fingerprint` of crates/fingerprint/src/lib.rs leaves of the histories.
use omnisec.Prelude.{
  ℕ, suc, ◌-◌, ◌≡◌, ◌⊎◌, refl, sym, ap, subst, ◌∙◌, inl, inr, false, Option, none, some, List, [],
  ◌∷◌, ◌++◌, length, length-append, arith, ◌==◌, ==_iff, ltb, get_elem?, if◌then◌else◌, Bool-cases,
}
use omnisec.Prelude.Maps.{NatMap, get, put, put_new, get-put, get-alter, get-put_new, found_or_not}
use omnisec.Prelude.External.{DateTime, FloatOps, F64Text, Uuid}
use omnisec.Fingerprint.Types.{AgentFingerprint}
use omnisec.Fingerprint.Builder.{build}
use omnisec.Fingerprint.Engine.{
  FingerprintManager, finalize_fingerprint, get_history, get_fingerprint, push_history,
  next_version, drift_of, drift_between, detect_drift,
}

-- The entry of a history for a process, or an empty one.
abbrev pub versions_of : Option (List AgentFingerprint) → List AgentFingerprint
versions_of none = []
versions_of (some versions) = versions

pub push_same :
    (h : NatMap (List AgentFingerprint)) (pid : ℕ) (x : AgentFingerprint)
    → versions_of (get (push_history h pid x) pid) ≡ versions_of (get h pid) ++ x ∷ []
push_same h pid x = ground (
  arith,
  get-alter (put_new h pid []) pid pid (λ versions. versions ++ x ∷ []),
  get-put_new h pid pid [],
)

pub push_other :
    (h : NatMap (List AgentFingerprint)) (pid q : ℕ) (x : AgentFingerprint)
    → (pid == q) ≡ false
    → get (push_history h pid x) q ≡ get h q
push_other h pid q x e =
    rw (
      get-alter (put_new h pid []) pid q (λ versions. versions ++ x ∷ []),
      get-put_new h pid q [],
      e,
    )

module _ (f : FloatOps) (t : F64Text) (id : Uuid) (now : DateTime) (m : FingerprintManager)
    (pid : ℕ) where
  abbrev after : FingerprintManager × Option AgentFingerprint
  after = finalize_fingerprint f t id now m pid

  -- Either nothing changes, or a fingerprint with the next version is the current one and ends the history.
  abbrev pub Finalized : FingerprintManager × Option AgentFingerprint → Type 0
  Finalized r =
      (r ≡ (m, none))
      ⊎ ((x : AgentFingerprint) × (r.1 ≡ some x)
          × (x.version ≡ next_version (get m.fingerprints pid) 1)
          × (r.0.history ≡ push_history m.history pid x)
          × (r.0.fingerprints ≡ put m.fingerprints pid x))

  pub finalize-Finalized : Finalized after
  unfolding finalize_fingerprint build
  finalize-Finalized = elim (found_or_not (get m.builders pid)) [
    | inl h ↦ rw (finalize_fingerprint, h) (inl refl)
    | inr (b, h) ↦ rw (finalize_fingerprint, h) (inr (_, refl, refl, refl, refl))
  ]

  pub get_history-finalize :
      (x : AgentFingerprint)
      → after.1 ≡ some x
      → get_history after.0 pid ≡ get_history m pid ++ x ∷ []
  unfolding get_history
  get_history-finalize x e = elim finalize-Finalized [
    | inl n ↦ ground (arith, e, ap (λ r. r.1) n)
    | inr (y, s, v, h, g) ↦ ap (λ entries. versions_of (get entries pid)) h ∙ pushed y (sym s ∙ e)
  ]
    where
      pushed :
          (y : AgentFingerprint)
          → some y ≡ some x
          → versions_of (get (push_history m.history pid y) pid)
            ≡ versions_of (get m.history pid) ++ x ∷ []
      pushed y e =
          push_same m.history pid y
          ∙ ap (λ o. versions_of (get m.history pid) ++ elim o [ none ↦ x | some z ↦ z ] ∷ []) e

-- What a call leaves of one history: the same, or one more version that becomes the current one.
abbrev pub Moved : FingerprintManager → FingerprintManager → Option AgentFingerprint → ℕ → Type 0
Moved m m' answer q =
    ((get_history m' q ≡ get_history m q) × (get_fingerprint m' q ≡ get_fingerprint m q))
    ⊎ ((x : AgentFingerprint) × (answer ≡ some x)
        × (x.version ≡ next_version (get_fingerprint m q) 1)
        × (get_history m' q ≡ get_history m q ++ x ∷ [])
        × (get_fingerprint m' q ≡ some x))

module _ (m m' : FingerprintManager) (pid q : ℕ) (x : AgentFingerprint)
    (answer : Option AgentFingerprint) where
  pushed-Moved :
      answer ≡ some x
      → x.version ≡ next_version (get m.fingerprints pid) 1
      → m'.history ≡ push_history m.history pid x
      → m'.fingerprints ≡ put m.fingerprints pid x
      → Moved m m' answer q
  unfolding get_history get_fingerprint
  pushed-Moved s v e g = elim (Bool-cases (pid == q)) [
    | inl p ↦
        let i : pid ≡ q = (==_iff pid q).0 p in
        inr (
          x,
          s,
          v ∙ ap (λ j. next_version (get m.fingerprints j) 1) i,
          ap (λ entries. versions_of (get entries q)) e
              ∙ subst
                  (λ j.
                    versions_of (get (push_history m.history pid x) j)
                    ≡ versions_of (get m.history j) ++ x ∷ [])
                  i (push_same m.history pid x),
          ap (λ entries. get entries q) g
              ∙ (get-put m.fingerprints pid q x
                  ∙ ap (λ c. if c then some x else get m.fingerprints q) p),
        )
    | inr p ↦ inl (
      ap (λ entries. versions_of (get entries q)) e
          ∙ ap versions_of (push_other m.history pid q x p),
      ap (λ entries. get entries q) g
          ∙ (get-put m.fingerprints pid q x
              ∙ ap (λ c. if c then some x else get m.fingerprints q) p),
    )
  ]

pub finalize-Moved :
    (f : FloatOps) (t : F64Text) (id : Uuid) (now : DateTime) (m : FingerprintManager) (pid q : ℕ)
    → Moved m (finalize_fingerprint f t id now m pid).0 (finalize_fingerprint f t id now m pid).1 q
finalize-Moved f t id now m pid q = elim (finalize-Finalized f t id now m pid) [
  | inl e ↦ inl (ap (λ r. get_history r.0 q) e, ap (λ r. get_fingerprint r.0 q) e)
  | inr (x, s, v, e, g) ↦ pushed-Moved m _ pid q x _ s v e g
]

pub get_history-finalize_other :
    (f : FloatOps) (t : F64Text) (id : Uuid) (now : DateTime) (m : FingerprintManager) (pid q : ℕ)
    → (pid == q) ≡ false
    → get_history (finalize_fingerprint f t id now m pid).0 q ≡ get_history m q
unfolding get_history
get_history-finalize_other f t id now m pid q l = elim (finalize-Finalized f t id now m pid) [
  | inl e ↦ ap (λ r. get_history r.0 q) e
  | inr (x, s, v, e, g) ↦
      ap (λ entries. versions_of (get entries q)) e
      ∙ ap versions_of (push_other m.history pid q x l)
]

get_elem?-end :
    (xs ys : List AgentFingerprint) (x : AgentFingerprint)
    → get_elem? (xs ++ x ∷ ys) (length xs) ≡ some x
get_elem?-end [] ys x = refl
get_elem?-end (y ∷ xs) ys x = get_elem?-end xs ys x

get_elem?-last :
    (xs : List AgentFingerprint) (a b : AgentFingerprint)
    → get_elem? (xs ++ a ∷ b ∷ []) (suc (length xs)) ≡ some b
get_elem?-last [] a b = refl
get_elem?-last (y ∷ xs) a b = get_elem?-last xs a b

pub drift_of-append :
    (f : FloatOps) (xs : List AgentFingerprint) (a b : AgentFingerprint)
    → drift_of f (xs ++ a ∷ b ∷ []) ≡ some (drift_between f b a)
unfolding drift_of
drift_of-append f xs a b =
    let l : length (xs ++ a ∷ b ∷ []) ≡ suc (suc (length xs)) =
      omega (arith, length-append xs (a ∷ b ∷ [])) in
    let long : ltb (suc (suc (length xs))) 2 ≡ false = ground arith in
    let one : suc (suc (length xs)) - 1 ≡ suc (length xs) = omega arith in
    let two : suc (suc (length xs)) - 2 ≡ length xs = omega arith in
    rw (l, long, one, two, get_elem?-end xs (b ∷ []) a, get_elem?-last xs a b) refl

pub detect_drift_lem :
    (f : FloatOps) (m : FingerprintManager) (pid : ℕ)
    → detect_drift f m pid ≡ drift_of f (get_history m pid)
unfolding detect_drift get_history drift_of
detect_drift_lem f m pid = elim (found_or_not (get m.history pid)) [
  | inl e ↦ rw (detect_drift, get_history, e) refl
  | inr (h, e) ↦ rw (detect_drift, get_history, e) refl
]
