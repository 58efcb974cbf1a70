-- ===== src/Anomaly/Log.antt =====
-- The anomalies that the detector of crates/anomaly/src/lib.rs keeps are those that its checks answered.
use omnisec.Prelude.{
  ℕ, ◌+◌, ◌≡◌, refl, ap, sym, ◌∙◌, inl, inr, String, Bool, true, false, Option, none, some, List,
  [], ◌∷◌, ◌++◌, map, retain, any, update_first, length, length-append, length-update_first,
  retain-append, ◌==◌, ==_iff, arith, if◌then◌else◌, Bool-cases,
}
use text.Mathlib.Text.{◌==◌ as str_eq}
use mathlib.Core.Path.{ap₂}
use mathlib.Core.List.{append-nil, append_assoc}
use omnisec.Prelude.Maps.{NatMap, get, put, get-put}
use omnisec.Prelude.External.{DateTime, FloatOps, F64Text}
use omnisec.Anomaly.Types.{AnomalyRecord, AnomalyDetector, BaselineState}
use omnisec.Anomaly.Records.{
  or_empty, push_anomaly, get_anomalies, resolve_anomaly, mark_resolved, anomaly_count, count_all,
}
use omnisec.Anomaly.Outcome.{Check, Outcome, quiet, reported, perform, perform-Outcome}

pub data Call : Type 0 where
  checking : DateTime → ℕ → String → BaselineState → Check → Call
  resolving : DateTime → ℕ → String → Call

abbrev listed : Option AnomalyRecord → List AnomalyRecord
listed none = []
listed (some r) = r ∷ []

module _ (f : FloatOps) (t : F64Text) where
  -- A call, with the record that it answers.
  abbrev pub step : AnomalyDetector → Call → AnomalyDetector × List AnomalyRecord
  step d (checking now pid name s c) =
      let (d', answer) = perform f t now d pid name s c in (d', listed answer)
  step d (resolving now pid id) = ((resolve_anomaly now d pid id).0, [])

  abbrev pub run : AnomalyDetector → List Call → AnomalyDetector × List AnomalyRecord
  run d [] = (d, [])
  run d (c ∷ cs) =
      let (d', answered) = step d c in let (d'', others) = run d' cs in (d'', answered ++ others)

-- A record without its resolution.
abbrev pub forget : AnomalyRecord → AnomalyRecord
forget r = record r { resolved = false; resolved_at = none }

abbrev pub of_pid : ℕ → List AnomalyRecord → List AnomalyRecord
of_pid q rs = retain (λ r. r.pid == q) rs

-- What a call leaves: the records of each process are those before and those answered, and all are counted.
abbrev Extended : AnomalyDetector → AnomalyDetector × List AnomalyRecord → Type 0
Extended d w =
    ((q : ℕ) → map forget (get_anomalies w.0 q) ≡ map forget (get_anomalies d q) ++ of_pid q w.1)
    × (anomaly_count w.0 ≡ anomaly_count d + length w.1)

map-append : (xs ys : List AnomalyRecord) → map forget (xs ++ ys) ≡ map forget xs ++ map forget ys
map-append [] ys = refl
map-append (x ∷ xs) ys = ap (λ l. forget x ∷ l) (map-append xs ys)

map-update_first :
    (p : AnomalyRecord → Bool) (now : DateTime) (rs : List AnomalyRecord)
    → map forget (update_first p (mark_resolved now) rs) ≡ map forget rs
unfolding update_first
map-update_first p now [] = refl
map-update_first p now (r ∷ rs) = elim (Bool-cases (p r)) [
  | inl h ↦ rw h refl
  | inr h ↦ rw h (ap (λ l. forget r ∷ l) (map-update_first p now rs))
]

count_all-put :
    (m : NatMap (List AnomalyRecord)) (k : ℕ) (v : List AnomalyRecord)
    → count_all (put m k v) + length (or_empty (get m k)) ≡ count_all m + length v
unfolding count_all put get
count_all-put [] k v = ground arith
count_all-put (e ∷ es) k v = ground (arith, count_all-put es k v)

none_more : (d : AnomalyDetector) → Extended d (d, [])
unfolding retain
none_more d = ((λ q. sym (append-nil (map forget (get_anomalies d q)))), ground arith)

answer_with-Extended :
    (d : AnomalyDetector) (pid : ℕ) (r : AnomalyRecord)
    → r.pid ≡ pid
    → forget r ≡ r
    → Extended d (push_anomaly d pid r, r ∷ [])
unfolding push_anomaly get_anomalies anomaly_count retain
answer_with-Extended d pid r h u =
    let old = or_empty (get d.anomalies pid) in
    let new = old ++ r ∷ [] in
    (
      (λ q.
          let here = λ (b : Bool) (e : (pid == q) ≡ b).
            ap (λ o. map forget (or_empty o))
              (get-put d.anomalies pid q new
                ∙ ap (λ x. if x then some new else get d.anomalies q) e) in
          let kept = λ (b : Bool) (e : (pid == q) ≡ b).
            sym (ap (λ x. if x then r ∷ [] else []) (ap (λ i. i == q) h ∙ e)) in
          elim (Bool-cases (pid == q)) [
            | inl e ↦
                here true e
                ∙ map-append old (r ∷ [])
                ∙ ap₂ (λ i x. map forget (or_empty (get d.anomalies i)) ++ x) ((==_iff pid q).0 e)
                    (ap (λ x. x ∷ []) u ∙ kept true e)
            | inr e ↦
                here false e
                ∙ sym (append-nil (map forget (or_empty (get d.anomalies q))))
                ∙ ap (λ x. map forget (or_empty (get d.anomalies q)) ++ x) (kept false e)
          ]),
      ground (arith, count_all-put d.anomalies pid new, length-append old (r ∷ [])),
    )

replaced-Extended :
    (d : AnomalyDetector) (pid : ℕ) (rs new : List AnomalyRecord)
    → get d.anomalies pid ≡ some rs
    → map forget new ≡ map forget rs
    → length new ≡ length rs
    → Extended d (record d { anomalies = put d.anomalies pid new }, [])
unfolding get_anomalies anomaly_count retain
replaced-Extended d pid rs new e same long = (
  (λ q. elim (Bool-cases (pid == q)) [
    | inl b ↦
        ap (λ o. map forget (or_empty o))
          (get-put d.anomalies pid q new ∙ ap (λ x. if x then some new else get d.anomalies q) b)
        ∙ same
        ∙ ap (λ o. map forget (or_empty o)) (sym e ∙ ap (get d.anomalies) ((==_iff pid q).0 b))
        ∙ sym (append-nil (map forget (or_empty (get d.anomalies q))))
    | inr b ↦
        ap (λ o. map forget (or_empty o))
          (get-put d.anomalies pid q new ∙ ap (λ x. if x then some new else get d.anomalies q) b)
        ∙ sym (append-nil (map forget (or_empty (get d.anomalies q))))
  ]),
  ground (arith, count_all-put d.anomalies pid new, ap (λ o. length (or_empty o)) e, long),
)

resolve-Extended :
    (now : DateTime) (d : AnomalyDetector) (pid : ℕ) (id : String)
    → Extended d ((resolve_anomaly now d pid id).0, [])
unfolding resolve_anomaly
resolve-Extended now d pid id = resolved_in (get d.anomalies pid) refl
  where
    resolved_in :
        (rs : Option (List AnomalyRecord))
        → get d.anomalies pid ≡ rs
        → (let w : AnomalyDetector × Bool = elim rs [
          | none ↦ (d, false)
          | some rs ↦
              if any (λ a. str_eq a.id id) rs
              then (
                record d {
                  anomalies =
                      put d.anomalies pid
                        (update_first (λ a. str_eq a.id id) (mark_resolved now) rs);
                },
                true,
              )
              else (d, false)
        ] in
            Extended d (w.0, []))
    resolved_in none e = none_more d
    resolved_in (some rs) e = elim (Bool-cases (any (λ a. str_eq a.id id) rs)) [
      | inl h ↦ rw h (
          replaced-Extended d pid rs (update_first (λ a. str_eq a.id id) (mark_resolved now) rs) e
            (map-update_first (λ a. str_eq a.id id) now rs)
            (length-update_first (λ a. str_eq a.id id) (mark_resolved now) rs))
      | inr h ↦ rw h (none_more d)
    ]

module _ (f : FloatOps) (t : F64Text) where
  outcome-Extended :
      (d : AnomalyDetector) (pid : ℕ) (x : AnomalyDetector × Option AnomalyRecord)
      → Outcome d pid x
      → Extended d (x.0, listed x.1)
  outcome-Extended d pid _ quiet = none_more d
  outcome-Extended d pid _ (reported r h a b) =
      answer_with-Extended d pid r h
        (ap₂ (λ x y. record r { resolved = x; resolved_at = y }) (sym a) (sym b))

  step-Extended : (d : AnomalyDetector) (c : Call) → Extended d (step f t d c)
  step-Extended d (checking now pid name s c) =
      outcome-Extended d pid (perform f t now d pid name s c)
        (perform-Outcome f t now d pid name s c)
  step-Extended d (resolving now pid id) = resolve-Extended now d pid id

  -- After any sequence of checks and resolutions the anomalies of each process are those it had and those
  -- that the checks of the process answered, in this order, up to their resolution; and the count has grown
  -- by the number of all the answers.
  pub run-Extended :
      (cs : List Call) (d : AnomalyDetector)
      → ((q : ℕ)
          → map forget (get_anomalies (run f t d cs).0 q)
            ≡ map forget (get_anomalies d q) ++ of_pid q (run f t d cs).1)
        × (anomaly_count (run f t d cs).0 ≡ anomaly_count d + length (run f t d cs).1)
  run-Extended [] d = none_more d
  run-Extended (c ∷ cs) d =
      let (d', answered) = step f t d c in
      let (one, more) = step-Extended d c in
      let (others, rest) = run-Extended cs (step f t d c).0 in
      (
        λ q.
            others q
            ∙ ap (λ x. x ++ of_pid q (run f t (step f t d c).0 cs).1) (one q)
            ∙ append_assoc (map forget (get_anomalies d q)) (of_pid q (step f t d c).1)
                (of_pid q (run f t (step f t d c).0 cs).1)
            ∙ ap (λ x. map forget (get_anomalies d q) ++ x)
                (sym (
                  retain-append (λ r. r.pid == q) (step f t d c).1
                    (run f t (step f t d c).0 cs).1)),
        ground (arith, more, rest, length-append (step f t d c).1 (run f t (step f t d c).0 cs).1),
      )
