-- ===== src/Security/Learning.antt =====
-- What the state of a learned baseline says of its age and its samples, in crates/security/src/lib.rs.
use omnisec.Prelude.{
  ℕ, ◌+◌, ◌-◌, ◌*◌, ◌/◌, ◌^◌, ◌<◌, ◌≤◌, ◌≡◌, refl, sym, subst, inl, inr, Bool, true, false, Option,
  none, some, arith, leb, leb→le, Bool-cases, if◌then◌else◌,
}
use native.Mathlib.Nat.{le-div_iff_mul-le, mod-le, le_trans}
use omnisec.Prelude.Maps.{mapped}
use omnisec.Prelude.External.{DateTime}
use omnisec.Anomaly.Types.{BaselineState, learning, training, established, is_established}
use omnisec.Security.Risk.{
  BaselineLearning, learn, next_state, should_generate_incidents, day, u32_word,
}

abbrev pub OnBaseline : (BaselineLearning → Type 0) → Option BaselineLearning → Type 0
OnBaseline P none = Unit
OnBaseline P (some b) = P b

-- What a state says of a baseline, at a time.
abbrev pub Reached : DateTime → ℕ → ℕ → BaselineState → Type 0
Reached now started samples learning = Unit
Reached now started samples training = (started + 7 * day ≤ now) × (1000 ≤ samples)
Reached now started samples established = (started + 8 * day ≤ now) × (1000 ≤ samples)

-- A baseline after at most `k` samples.
abbrev pub Earned : ℕ → DateTime → BaselineLearning → Type 0
Earned k now b =
    (b.required_days ≡ 7)
    × (b.required_samples ≡ 1000)
    × (b.samples_collected ≤ k)
    × Reached now b.learning_started b.samples_collected b.state

observed :
    (n now started : ℕ) → 1 ≤ n → n ≤ u32_word ((now - started) / day) → started + n * day ≤ now
observed n now started p h =
    let days = le_trans h (mod-le ((now - started) / day) (2 ^ 32)) in
    let spent : n * day ≤ now - started =
      (le-div_iff_mul-le {k = day} {x = n} {y = now - started} (omega arith)).0 days in
    ground (arith, spent, p)

module _ (k now later : ℕ) (b : k + 1 < 2 ^ 32) (order : now ≤ later) where
  next-Reached :
      (started samples : ℕ) (s : BaselineState)
      → samples ≤ k
      → Reached now started samples s
      → Reached later started
          (u32_word (samples + 1))
          (next_state (u32_word ((later - started) / day)) (u32_word (samples + 1)) 7 1000 s)
  next-Reached started samples learning m h =
      elim (Bool-cases (leb 7 (u32_word ((later - started) / day)))) [
        | inl p ↦ elim (Bool-cases (leb 1000 (u32_word (samples + 1)))) [
          | inl q ↦
              rw (p, q) (observed 7 later started (omega arith) (leb→le 7 _ p), leb→le 1000 _ q)
          | inr q ↦ rw (p, q) tt
        ]
        | inr p ↦ rw p tt
      ]
  next-Reached started samples training m (d, c) =
      elim (Bool-cases (leb 8 (u32_word ((later - started) / day)))) [
        | inl p ↦
            rw p (observed 8 later started (omega arith) (leb→le 8 _ p), ground (arith, c, m, b))
        | inr p ↦ rw p (ground (arith, d, order), ground (arith, c, m, b))
      ]
  next-Reached started samples established m (d, c) =
      (ground (arith, d, order), ground (arith, c, m, b))

  learn-Earned : (x : BaselineLearning) → Earned k now x → Earned (k + 1) later (learn later x).0
  unfolding learn
  learn-Earned x (d, s, m, r) = (
    d,
    s,
    ground (arith, m, b),
    rw (d, s) (next-Reached x.learning_started x.samples_collected x.state m r),
  )

later-Reached :
    (now later started samples : ℕ) (s : BaselineState)
    → now ≤ later
    → Reached now started samples s
    → Reached later started samples s
later-Reached now later started samples learning o h = tt
later-Reached now later started samples training o (d, c) = (ground (arith, o, d), c)
later-Reached now later started samples established o (d, c) = (ground (arith, o, d), c)

pub later-Earned :
    (k now later : ℕ)
    → now ≤ later
    → (found : Option BaselineLearning) → OnBaseline (Earned k now) found
    → OnBaseline (Earned (k + 1) later) found
later-Earned k now later o none h = tt
later-Earned k now later o (some b) (d, s, m, r) = (
  d,
  s,
  ground (arith, m),
  later-Reached now later b.learning_started b.samples_collected b.state o r,
)

pub pick :
    (k now : ℕ) (c : Bool) (x y z : Option BaselineLearning)
    → z ≡ (if c then x else y)
    → OnBaseline (Earned k now) x
    → OnBaseline (Earned k now) y
    → OnBaseline (Earned k now) z
pick k now true x y z e h g = subst (OnBaseline (Earned k now)) (sym e) h
pick k now false x y z e h g = subst (OnBaseline (Earned k now)) (sym e) g

pub mapped-Earned :
    (k now later : ℕ)
    → k + 1 < 2 ^ 32
    → now ≤ later
    → (found : Option BaselineLearning) → OnBaseline (Earned k now) found
    → OnBaseline (Earned (k + 1) later) (mapped (λ b. (learn later b).0) found)
mapped-Earned k now later b o none h = tt
mapped-Earned k now later b o (some x) h = learn-Earned k now later b o x h

pub mature :
    (k now : ℕ) (found : Option BaselineLearning)
    → OnBaseline (Earned k now) found
    → (elim found [ none ↦ false | some b ↦ should_generate_incidents b ]) ≡ true
    → (b : BaselineLearning) × (found ≡ some b)
      × (b.learning_started + 8 * day ≤ now)
      × (1000 ≤ b.samples_collected)
unfolding should_generate_incidents
mature k now none h e = ground (arith, e)
mature k now (some b) (d, s, m, r) e =
    let (late, much) = reached b.state r e in (b, refl, late, much)
  where
    reached :
        (s : BaselineState)
        → Reached now b.learning_started b.samples_collected s
        → is_established s ≡ true
        → (b.learning_started + 8 * day ≤ now) × (1000 ≤ b.samples_collected)
    reached learning h e = ground (arith, e)
    reached training h e = ground (arith, e)
    reached established h e = h
