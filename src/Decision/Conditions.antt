-- ===== src/Decision/Conditions.antt =====
-- When a rule's conditions hold of a context: `matches_rule` against a description by one clause
-- for each condition.
use mathlib.Core.Bool.{xor}
use mathlib.Core.Option.{some-injective}
use text.Mathlib.Text.{◌==◌ as str_eq}
use text.Mathlib.TextEquality.{eq_iff}
use omnisec.Prelude.{
  ℕ, ◌≤◌, String, ◌≡◌, refl, ap, subst, ◌↔◌, Bool, true, not, ◌&&◌, Option, none, some, arith, ltb,
}
use omnisec.Prelude.Texts.{has_part}
use omnisec.Prelude.External.{F64, FloatOps}
use omnisec.Decision.Types.{EnforcementContext, PolicyConditions}
use omnisec.Decision.Matching.{when_set, present, matches_rule}

module _ (f : FloatOps) where
  -- What each condition asks of the context, if it is set.
  pub record Matches (c : PolicyConditions) (context : EnforcementContext) (is_new : Bool)
      : Type 0 where
    pub risk_low : (m : ℕ) → c.risk_score_min ≡ some m → m ≤ context.risk_score
    pub risk_high : (m : ℕ) → c.risk_score_max ≡ some m → context.risk_score ≤ m
    pub anomaly : (t : String) → c.anomaly_type ≡ some t → context.anomaly_type ≡ some t
    pub destination : (t : String) → c.destination_match ≡ some t → context.destination ≡ some t
    pub destination_part :
        (t : String)
        → c.destination_pattern ≡ some t
        → (d : String) × (context.destination ≡ some d) × (has_part d t ≡ true)
    pub process : (t : String) → c.process_name_match ≡ some t → context.process_name ≡ some t
    pub file_part :
        (t : String)
        → c.file_path_pattern ≡ some t
        → (d : String) × (context.file_path ≡ some d) × (has_part d t ≡ true)
    pub known : (b : Bool) → c.is_known_destination ≡ some b → b ≡ not is_new
    pub new : (b : Bool) → c.is_new_destination ≡ some b → b ≡ is_new
    pub correlation : (t : String) → c.correlation_type ≡ some t → context.correlation_type ≡ some t
    pub ratio :
        (low : F64)
        → c.outbound_ratio_min ≡ some low
        → (d : F64) × (context.deviation ≡ some d) × (not (f.lt d low) ≡ true)
    pub count : (m : ℕ) → c.incident_count_min ≡ some m → m ≤ context.risk_score

when_set_iff {ℓ κ} :
    {A : Type ℓ} (P : A → Type κ) (o : Option A) (test : A → Bool)
    → ((a : A) → (test a ≡ true) ↔ P a)
    → (when_set o test ≡ true) ↔ ((a : A) → o ≡ some a → P a)
when_set_iff P none test h = ((λ t a e. absurd (ground arith)), (λ k. refl))
when_set_iff P (some b) test h =
    ((λ t a e. subst P (some-injective b a e) ((h b).0 t)), (λ k. (h b).1 (k b refl)))

present_text :
    (o : Option String) (t : String) → (present o (λ a. str_eq a t) ≡ true) ↔ (o ≡ some t)
present_text none t = ((λ h. cc), (λ h. cc))
present_text (some a) t = ((λ h. ap some ((eq_iff a t).0 h)), (λ e. (eq_iff a t).1 (ground arith)))

present_iff {ℓ} :
    {A : Type ℓ} (o : Option A) (test : A → Bool)
    → (present o test ≡ true) ↔ ((a : A) × (o ≡ some a) × (test a ≡ true))
present_iff none test = ((λ h. cc), (λ h. cc (h.1)))
present_iff (some b) test = ((λ h. (b, refl, h)), (λ h. cc (h.1, h.2)))

present-when_set {ℓ κ} :
    {A : Type ℓ} {B : Type κ} (o : Option A) (actual : Option B) (test : A → B → Bool)
    → (when_set o (λ a. present actual (test a)) ≡ true)
      ↔ ((a : A) → o ≡ some a → (b : B) × (actual ≡ some b) × (test a b ≡ true))
present-when_set o actual test = when_set_iff _ o _ (λ a. present_iff actual (test a))

at_least :
    (o : Option ℕ) (n : ℕ)
    → (when_set o (λ low. not (ltb n low)) ≡ true) ↔ ((m : ℕ) → o ≡ some m → m ≤ n)
at_least o n = when_set_iff (λ m. m ≤ n) o _ (λ m. ground arith)

at_most :
    (o : Option ℕ) (n : ℕ)
    → (when_set o (λ high. not (ltb high n)) ≡ true) ↔ ((m : ℕ) → o ≡ some m → n ≤ m)
at_most o n = when_set_iff (λ m. n ≤ m) o _ (λ m. ground arith)

known_test : (is_new b : Bool) → (xor is_new b ≡ true) ↔ (b ≡ not is_new)
unfolding xor
known_test is_new b = ground arith

new_test : (is_new b : Bool) → (not (xor is_new b) ≡ true) ↔ (b ≡ is_new)
unfolding xor
new_test is_new b = ground arith

all_twelve :
    (a b c d e g h i j k l m : Bool)
    → (a && b && c && d && e && g && h && i && j && k && l && m ≡ true) ↔ (
        (a ≡ true)
        × (b ≡ true)
        × (c ≡ true)
        × (d ≡ true)
        × (e ≡ true)
        × (g ≡ true)
        × (h ≡ true)
        × (i ≡ true)
        × (j ≡ true)
        × (k ≡ true)
        × (l ≡ true)
        × (m ≡ true))
all_twelve a b c d e g h i j k l m = ground arith

module _ (f : FloatOps) (c : PolicyConditions) (context : EnforcementContext) (is_new : Bool) where
  -- A rule matches exactly when each of the conditions that it sets holds of the context.
  pub matches_rule_iff : (matches_rule f c context is_new ≡ true) ↔ Matches f c context is_new
  unfolding matches_rule
  matches_rule_iff =
      let low = at_least c.risk_score_min context.risk_score in
      let high = at_most c.risk_score_max context.risk_score in
      let anomaly = when_set_iff _ c.anomaly_type _ (present_text context.anomaly_type) in
      let dest = when_set_iff _ c.destination_match _ (present_text context.destination) in
      let dest_part =
        present-when_set c.destination_pattern context.destination (λ t d. has_part d t) in
      let process = when_set_iff _ c.process_name_match _ (present_text context.process_name) in
      let file_part =
        present-when_set c.file_path_pattern context.file_path (λ t d. has_part d t) in
      let known = when_set_iff (λ b. b ≡ not is_new) c.is_known_destination _ (known_test is_new) in
      let new = when_set_iff (λ b. b ≡ is_new) c.is_new_destination _ (new_test is_new) in
      let corr = when_set_iff _ c.correlation_type _ (present_text context.correlation_type) in
      let ratio = present-when_set c.outbound_ratio_min context.deviation (λ m d. not (f.lt d m)) in
      let count = at_least c.incident_count_min context.risk_score in
      let twelve = all_twelve _ _ _ _ _ _ _ _ _ _ _ _ in
      (
        (λ h.
            let t = twelve.0 h in
            record {
              risk_low = low.0 t.0;
              risk_high = high.0 t.1;
              anomaly = anomaly.0 t.2;
              destination = dest.0 t.3;
              destination_part = dest_part.0 t.4;
              process = process.0 t.5;
              file_part = file_part.0 t.6;
              known = known.0 t.7;
              new = new.0 t.8;
              correlation = corr.0 t.9;
              ratio = ratio.0 t.10;
              count = count.0 t.11;
            }),
        (λ m. twelve.1 (
          low.1 m.risk_low,
          high.1 m.risk_high,
          anomaly.1 m.anomaly,
          dest.1 m.destination,
          dest_part.1 m.destination_part,
          process.1 m.process,
          file_part.1 m.file_part,
          known.1 m.known,
          new.1 m.new,
          corr.1 m.correlation,
          ratio.1 m.ratio,
          count.1 m.count,
        )),
      )
