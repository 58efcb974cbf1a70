-- ===== src/Security/Globals.antt =====
-- Whether crates/security/src/correlation.rs ever takes the spikes of several agents for a global one.
use native.Mathlib.Nat.{
  add-mul, mul-le-mul_right, mul-le-mul_left, mul_comm, le_trans, le_of_lt, mul-add, mul_left_comm,
}
use mathlib.Core.Path.{ap₂}
use omnisec.Prelude.{
  ℕ, suc, ◌+◌, ◌*◌, ◌^◌, ◌<◌, ◌≤◌, ◌≡◌, refl, ap, sym, subst, ◌∙◌, inl, inr, Bool, true, false,
  ◌&&◌, List, [], ◌∷◌, map, retain, length, length-retain-le, All, All-retain, All-retain_of,
  All-both, arith, Bool-cases, if◌then◌else◌, ◌==◌,
}
use omnisec.Prelude.External.{DateTime, F64, FloatOps, F64Text}
use omnisec.Security.Snapshots.{AgentActivitySnapshot, CorrelationAlert}
use omnisec.Security.Correlation.{
  sum_rates, mean_rate, stands_out, is_global, individual_traffic, individual_outbound,
  detect_traffic_correlation, detect_outbound_correlation,
}

abbrev pub exact_bound : ℕ
exact_bound = 2 ^ 53

-- What IEEE 754 says of f64 on whole numbers below 2 ^ 53: sums are exact, and a quotient, a product and
-- the literals are off by a relative error far below a tenth.
pub record WholeOps (f : FloatOps) : Type 0 where
  pub zero_whole : f.literal 0 1 ≡ f.of_nat 0
  pub add_whole :
      (a b : ℕ) → a + b < exact_bound → f.add (f.of_nat a) (f.of_nat b) ≡ f.of_nat (a + b)
  pub triple :
      (s n r : ℕ)
      → 1 ≤ n
      → s < exact_bound
      → n < exact_bound
      → r < exact_bound
      → f.lt (f.mul (f.div (f.of_nat s) (f.of_nat n)) (f.literal 30 1)) (f.of_nat r) ≡ true
      → 2 * s < r * n
  pub seven_tenths :
      (k n : ℕ)
      → 1 ≤ n
      → n < exact_bound
      → k ≤ n
      → f.lt (f.literal 7 1) (f.div (f.of_nat k) (f.of_nat n)) ≡ true
      → n < 2 * k

abbrev pub total : (AgentActivitySnapshot → ℕ) → List AgentActivitySnapshot → ℕ
total rate [] = 0
total rate (a ∷ as_) = rate a + total rate as_

total-retain :
    (rate : AgentActivitySnapshot → ℕ) (p : AgentActivitySnapshot → Bool)
    (as_ : List AgentActivitySnapshot)
    → total rate (retain p as_) ≤ total rate as_
unfolding retain
total-retain rate p [] = ground arith
total-retain rate p (a ∷ as_) = ground (arith, total-retain rate p as_)

-- Each of `as_` is above twice the average of n agents with the sum s.
outliers_weigh :
    (rate : AgentActivitySnapshot → ℕ) (s n : ℕ) (as_ : List AgentActivitySnapshot)
    → All (λ a. 2 * s < rate a * n) as_
    → length as_ * (2 * s + 1) ≤ total rate as_ * n
outliers_weigh rate s n [] h = ground arith
outliers_weigh rate s n (a ∷ as_) h =
    let rest = outliers_weigh rate s n as_ h.1 in
    subst (λ m. suc (length as_) * (2 * s + 1) ≤ m) (sym (add-mul (rate a) (total rate as_) n))
      (ground (arith, rest, h.0))

no_majority : (k n s t : ℕ) → k * (2 * s + 1) ≤ t * n → t ≤ s → n < 2 * k → ⊥
no_majority k n s t h le g =
    let above = le_trans (mul-le-mul_right n le) (mul-le-mul_left s (le_of_lt g)) in
    ground (
      arith,
      h,
      above,
      g,
      mul-add k (2 * s) 1,
      mul_left_comm s 2 k,
      mul_left_comm k 2 s,
      mul_comm s k,
    )

first : (a b : Bool) → (a && b) ≡ true → a ≡ true
first true b h = refl
first false b h = h

rates_small :
    (rate : AgentActivitySnapshot → ℕ) (as_ : List AgentActivitySnapshot) (t : ℕ)
    → total rate as_ + t < exact_bound
    → All (λ a. rate a < exact_bound) as_
rates_small rate [] t h = tt
rates_small rate (a ∷ as_) t h =
    (ground (arith, h), rates_small rate as_ (t + rate a) (ground (arith, h)))

length-map : {A B : Type 0} (g : A → B) (xs : List A) → length (map g xs) ≡ length xs
length-map g [] = refl
length-map g (x ∷ xs) = ap suc (length-map g xs)

-- A rate that is a whole number.
abbrev pub IsWhole :
    FloatOps
    → (AgentActivitySnapshot → F64)
    → (AgentActivitySnapshot → ℕ)
    → AgentActivitySnapshot
    → Type 0
IsWhole f field rate a = field a ≡ f.of_nat (rate a)

module _ (f : FloatOps) (w : WholeOps f) (field : AgentActivitySnapshot → F64)
    (rate : AgentActivitySnapshot → ℕ) where
  sum_rates-whole :
      (as_ : List AgentActivitySnapshot) (t : ℕ)
      → All (IsWhole f field rate) as_
      → t + total rate as_ < exact_bound
      → sum_rates f (f.of_nat t) (map field as_) ≡ f.of_nat (t + total rate as_)
  unfolding sum_rates
  sum_rates-whole [] t h b = ap f.of_nat (ground arith)
  sum_rates-whole (a ∷ as_) t h b =
      ap (λ x. sum_rates f x (map field as_))
        (ap (λ x. f.add (f.of_nat t) x) h.0 ∙ w.add_whole t (rate a) (ground (arith, b)))
      ∙ sum_rates-whole as_ (t + rate a) h.1 (ground (arith, b))
      ∙ ap f.of_nat (ground arith)

  module _ (active : List AgentActivitySnapshot) (floor : F64)
      (h : All (IsWhole f field rate) active) (some_active : 1 ≤ length active)
      (few : length active < exact_bound) (small : total rate active < exact_bound) where
    abbrev mean : F64
    mean = mean_rate f (map field active)

    abbrev outliers : List AgentActivitySnapshot
    outliers = retain (λ a. stands_out f mean floor (field a)) active

    mean-whole : mean ≡ f.div (f.of_nat (total rate active)) (f.of_nat (length active))
    unfolding mean_rate
    mean-whole =
        ap₂ (λ x n. f.div x (f.of_nat n))
          (ap (λ z. sum_rates f z (map field active)) w.zero_whole
            ∙ sum_rates-whole active 0 h (ground (arith, small))
            ∙ ap f.of_nat (ground arith))
          (length-map field active)

    weighs :
        (a : AgentActivitySnapshot)
        → stands_out f mean floor (field a) ≡ true
        → IsWhole f field rate a × (rate a < exact_bound)
        → 2 * total rate active < rate a * length active
    unfolding stands_out
    weighs a s (i, b) =
        w.triple (total rate active) (length active) (rate a) some_active small few b
          (ap₂ (λ m r. f.lt (f.mul m (f.literal 30 1)) r) (sym mean-whole) (sym i) ∙ first _ _ s)

    never_global : is_global f (length outliers) (length active) ≡ false
    unfolding is_global
    never_global = elim (Bool-cases (is_global f (length outliers) (length active))) [
      | inr e ↦ e
      | inl e ↦
          let heavy = outliers_weigh rate (total rate active) (length active) outliers (
            All-both weighs outliers (All-retain (λ a. stands_out f mean floor (field a)) active) (
              All-retain_of (λ a. stands_out f mean floor (field a))
                (λ a. IsWhole f field rate a × (rate a < exact_bound)) active
                (All-both (λ a x y. (x, y)) active h
                  (rates_small rate active 0 (ground (arith, small)))))) in
          let many =
            w.seven_tenths (length outliers) (length active) some_active few
              (length-retain-le (λ a. stands_out f mean floor (field a)) active) e in
          absurd (
            no_majority (length outliers) (length active) (total rate active) (total rate outliers)
              heavy (total-retain rate _ active) many)
    ]

suc_positive : (n : ℕ) → (suc n == 0) ≡ false
suc_positive n = ground arith

only_single :
    (os : List AgentActivitySnapshot) (g : AgentActivitySnapshot → CorrelationAlert) (global : Bool)
    (all : CorrelationAlert)
    → global ≡ false
    → (if length os == 0 then [] else if global then all ∷ [] else map g os) ≡ map g os
only_single [] g global all h = refl
only_single (a ∷ as_) g global all h = rw (suc_positive (length as_), h) refl

-- Where the rates of the active agents are whole numbers with a sum below 2 ^ 53, and f64 is exact enough on
-- those: an alert is made for each agent whose traffic stands out, about that agent alone, and never one of a
-- global spike, however many agents there are and whatever their rates; and so for the outbound traffic,
-- unless its average is below 100.
pub spikes_individual :
    (f : FloatOps) (t : F64Text) (now : DateTime)
    → WholeOps f
    → (in_ out : AgentActivitySnapshot → ℕ) (active : List AgentActivitySnapshot)
    → 1 ≤ length active
    → length active < exact_bound
    → All (IsWhole f (λ a. a.traffic_rate_in) in_) active
    → total in_ active < exact_bound
    → All (IsWhole f (λ a. a.traffic_rate_out) out) active
    → total out active < exact_bound
    → (let avg_in : F64 = mean_rate f (map (λ a. a.traffic_rate_in) active) in
        detect_traffic_correlation f t now active
        ≡ map
            (individual_traffic f t now avg_in)
            (retain (λ a. stands_out f avg_in (f.literal 10_000 1) a.traffic_rate_in) active))
      × (let avg_out : F64 = mean_rate f (map (λ a. a.traffic_rate_out) active) in
          detect_outbound_correlation f t now active ≡ (
            if f.lt avg_out (f.literal 1_000 1)
            then []
            else map (individual_outbound f t now avg_out) (
                retain (λ a. stands_out f avg_out (f.literal 50_000 1) a.traffic_rate_out) active)))
unfolding detect_traffic_correlation detect_outbound_correlation
spikes_individual f t now w in_ out active p few hi bi ho bo = (
  only_single _ _ _ _
      (never_global f w (λ a. a.traffic_rate_in) in_ active (f.literal 10_000 1) hi p few bi),
  ap
      (λ alerts.
        if f.lt (mean_rate f (map (λ a. a.traffic_rate_out) active)) (f.literal 1_000 1)
        then []
        else alerts)
      (only_single _ _ _ _
        (never_global f w (λ a. a.traffic_rate_out) out active (f.literal 50_000 1) ho p few bo)),
)
