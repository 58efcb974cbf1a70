-- ===== src/Reliability/Samples.antt =====
-- Which samples the detector of crates/reliability/src/memory.rs keeps, and when it reports a leak.
use omnisec.Prelude.{
  ℕ, zero, suc, ◌+◌, ◌-◌, ◌<◌, ◌≡◌, refl, ap, sym, subst, ◌∙◌, inl, inr, String, Bool, true, false,
  none, some, List, [], ◌∷◌, ◌++◌, arith, ltb, leb, if◌then◌else◌, length, length-append,
  length-drop, drop, Bool-cases,
}
use mathlib.Core.List.{append_assoc, append-nil}
use omnisec.Prelude.External.{DateTime, F64, FloatOps}
use omnisec.Reliability.Memory.{
  MemorySample, MemoryLeakDetector, new_detector, record_sample, set_leaking, is_growing,
  detect_leak,
}

-- A detection at a time, or a sample.
pub data Call : Type 0 where
  sampling : MemorySample → Call
  detecting : DateTime → Call

module _ (f : FloatOps) where
  abbrev pub perform : MemoryLeakDetector → Call → MemoryLeakDetector
  perform d (sampling s) = record_sample d s
  perform d (detecting t) = (detect_leak f d t).0

  abbrev pub run : MemoryLeakDetector → List Call → MemoryLeakDetector
  run d [] = d
  run d (c ∷ cs) = run (perform d c) cs

abbrev pub sampled : List Call → List MemorySample
sampled [] = []
sampled (sampling s ∷ cs) = s ∷ sampled cs
sampled (detecting t ∷ cs) = sampled cs

-- The last n elements.
abbrev pub suffix : {A : Type 0} → ℕ → List A → List A
suffix n xs = drop (length xs - n) xs

-- The time of the leak is known exactly while there is one.
abbrev pub is_timed : MemoryLeakDetector → Bool
is_timed d =
    if d.is_leaking
    then (elim d.leak_detected_at [ none ↦ false | some t ↦ true ])
    else (elim d.leak_detected_at [ none ↦ true | some t ↦ false ])

module _ {A : Type 0} where
  drop-append : (n : ℕ) (xs ys : List A) → n < suc (length xs) → drop n (xs ++ ys) ≡ drop n xs ++ ys
  drop-append zero xs ys h = refl
  drop-append (suc n) [] ys h = absurd (omega (arith, h))
  drop-append (suc n) (x ∷ xs) ys h = drop-append n xs ys (omega (arith, h))

  drop-one : (n : ℕ) (xs : List A) → drop 1 (drop n xs) ≡ drop (suc n) xs
  drop-one zero xs = refl
  drop-one (suc n) [] = refl
  drop-one (suc n) (x ∷ xs) = drop-one n xs

  -- Adding to the last n and taking the last n again.
  suffix-step :
      (n : ℕ) (xs : List A) (y : A)
      → 0 < n
      → (if leb n (length (suffix n xs)) then drop 1 (suffix n xs) else suffix n xs) ++ y ∷ []
        ≡ suffix n (xs ++ y ∷ [])
  suffix-step n xs y h =
      let kept = length-drop (length xs - n) xs in
      let grown = length-append xs (y ∷ []) in
      elim (Bool-cases (leb n (length (suffix n xs)))) [
        | inl m ↦
            let next : length (xs ++ y ∷ []) - n ≡ suc (length xs - n) =
              ground (arith, m, kept, grown, h) in
            let small : suc (length xs - n) < suc (length xs) = ground (arith, m, kept, h) in
            rw m (
              ap (λ l. l ++ y ∷ []) (drop-one (length xs - n) xs)
              ∙ sym (drop-append (suc (length xs - n)) xs (y ∷ []) small)
              ∙ ap (λ i. drop i (xs ++ y ∷ [])) (sym next))
        | inr m ↦
            let start : length xs - n ≡ 0 = ground (arith, m, kept) in
            let next : length (xs ++ y ∷ []) - n ≡ 0 = ground (arith, m, kept, grown) in
            rw m (ap (λ i. drop i xs ++ y ∷ []) start ∙ ap (λ i. drop i (xs ++ y ∷ [])) (sym next))
      ]

set_leaking-is_timed :
    (d : MemoryLeakDetector) (leaking : Bool) (now : DateTime)
    → is_timed d ≡ true
    → is_timed (set_leaking d leaking now) ≡ true
unfolding set_leaking
set_leaking-is_timed d leaking now h = ground (arith, h)

module _ (f : FloatOps) where
  -- The samples are the last `max_samples` of those recorded, and the time of a leak is known exactly
  -- while there is one.
  abbrev pub Windowed : ℕ → List MemorySample → MemoryLeakDetector → Type 0
  Windowed size recorded d =
      (d.max_samples ≡ size) × (d.samples ≡ suffix size recorded) × (is_timed d ≡ true)

  set_leaking_rest :
      (d : MemoryLeakDetector) (leaking : Bool) (now : DateTime)
      → ((set_leaking d leaking now).max_samples ≡ d.max_samples)
        × ((set_leaking d leaking now).samples ≡ d.samples)
  unfolding set_leaking
  set_leaking_rest d leaking now = (ground arith, ground arith)

  either-Windowed :
      (size : ℕ) (recorded : List MemorySample) (d d' : MemoryLeakDetector) (b few : Bool)
      → Windowed size recorded d
      → Windowed size recorded d'
      → (let r : MemoryLeakDetector × Bool = if few then (d, false) else (d', b) in
          Windowed size recorded r.0)
  either-Windowed size recorded d d' b true w w' = w
  either-Windowed size recorded d d' b false w w' = w'

  perform-Windowed :
      (size : ℕ) (recorded : List MemorySample) (d : MemoryLeakDetector) (c : Call)
      → 0 < size
      → Windowed size recorded d
      → Windowed size (recorded ++ sampled (c ∷ [])) (perform f d c)
  unfolding record_sample detect_leak
  perform-Windowed size recorded d (sampling s) h (m, w, t) =
      (m, rw (m, w) (suffix-step size recorded s h), t)
  perform-Windowed size recorded d (detecting now) h (m, w, t) =
      let rest = set_leaking_rest d (is_growing f d) now in
      either-Windowed size (recorded ++ []) d _ _ (ltb (length d.samples) (d.window_size + 1))
        (subst (λ l. Windowed size l d) (sym (append-nil recorded)) (m, w, t))
        (subst (λ l. Windowed size l (set_leaking d (is_growing f d) now))
          (sym (append-nil recorded))
          (rest.0 ∙ m, rest.1 ∙ w, set_leaking-is_timed d (is_growing f d) now t))

  sampled_first : (c : Call) (cs : List Call) → sampled (c ∷ []) ++ sampled cs ≡ sampled (c ∷ cs)
  sampled_first (sampling s) cs = refl
  sampled_first (detecting t) cs = refl

  more-Windowed :
      (size : ℕ) (recorded : List MemorySample) (d : MemoryLeakDetector) (cs : List Call)
      → 0 < size
      → Windowed size recorded d
      → Windowed size (recorded ++ sampled cs) (run f d cs)
  more-Windowed size recorded d [] h w =
      subst (λ l. Windowed size l d) (sym (append-nil recorded)) w
  more-Windowed size recorded d (c ∷ cs) h w =
      subst (λ l. Windowed size l (run f d (c ∷ cs)))
        (append_assoc recorded (sampled (c ∷ [])) (sampled cs)
          ∙ ap (λ l. recorded ++ l) (sampled_first c cs))
        (more-Windowed size (recorded ++ sampled (c ∷ [])) (perform f d c) cs h
          (perform-Windowed size recorded d c h w))

  -- After any sequence of samples and detections on a new detector its samples are the last 100 of
  -- those recorded, in order, and it holds the time of a leak exactly while it reports one.
  pub run-Windowed :
      (pid : ℕ) (agent_name : String) (threshold : F64) (limit : ℕ) (cs : List Call)
      → Windowed 100 (sampled cs) (run f (new_detector pid agent_name threshold limit) cs)
  unfolding new_detector
  run-Windowed pid agent_name threshold limit cs =
      more-Windowed 100 [] (new_detector pid agent_name threshold limit) cs (omega arith)
        (refl, refl, refl)
