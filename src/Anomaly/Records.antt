-- ===== src/Anomaly/Records.antt =====
-- The anomalies that the detector of crates/anomaly/src/lib.rs keeps.
use omnisec.Prelude.{
  ℕ, ◌+◌, String, Bool, true, false, not, Option, none, some, List, [], ◌∷◌, ◌++◌, any, retain,
  update_first, length, if◌then◌else◌,
}
use text.Mathlib.Text.{◌==◌ as str_eq}
use omnisec.Prelude.Maps.{NatMap, get, put}
use omnisec.Prelude.External.{DateTime}
use omnisec.Anomaly.Types.{AnomalyRecord, AnomalyDetector}

-- `unwrap_or_default`
abbrev pub or_empty : Option (List AnomalyRecord) → List AnomalyRecord
or_empty none = []
or_empty (some rs) = rs

-- `self.anomalies.entry(pid).or_default().push(record.clone())`
unfoldable pub push_anomaly : AnomalyDetector → ℕ → AnomalyRecord → AnomalyDetector
push_anomaly d pid r = record d {
  anomalies = put d.anomalies pid (or_empty (get d.anomalies pid) ++ r ∷ []);
}

unfoldable pub get_anomalies : AnomalyDetector → ℕ → List AnomalyRecord
get_anomalies d pid = or_empty (get d.anomalies pid)

unfoldable pub get_unresolved_anomalies : AnomalyDetector → ℕ → List AnomalyRecord
get_unresolved_anomalies d pid = retain (λ a. not a.resolved) (or_empty (get d.anomalies pid))

unfoldable pub flatten : NatMap (List AnomalyRecord) → List AnomalyRecord
flatten [] = []
flatten (e ∷ es) = e.1 ++ flatten es

unfoldable pub get_all_anomalies : AnomalyDetector → List AnomalyRecord
unfolding flatten
get_all_anomalies d = flatten d.anomalies

abbrev pub mark_resolved : DateTime → AnomalyRecord → AnomalyRecord
mark_resolved now a = record a { resolved = true; resolved_at = some now }

unfoldable pub resolve_anomaly : DateTime → AnomalyDetector → ℕ → String → AnomalyDetector × Bool
resolve_anomaly now d pid anomaly_id = elim (get d.anomalies pid) [
  | none ↦ (d, false)
  | some rs ↦
      if any (λ a. str_eq a.id anomaly_id) rs
      then (
        record d {
          anomalies =
              put d.anomalies pid
                (update_first (λ a. str_eq a.id anomaly_id) (mark_resolved now) rs);
        },
        true,
      )
      else (d, false)
]

unfoldable pub count_all : NatMap (List AnomalyRecord) → ℕ
count_all [] = 0
count_all (e ∷ es) = length e.1 + count_all es

unfoldable pub anomaly_count : AnomalyDetector → ℕ
unfolding count_all
anomaly_count d = count_all d.anomalies
