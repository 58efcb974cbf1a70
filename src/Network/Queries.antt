-- ===== src/Network/Queries.antt =====
-- The queries of crates/network/src/lib.rs on the tracker.
use omnisec.Prelude.{
  ℕ, ◌+◌, ◌%◌, ◌^◌, Bool, true, false, not, none, some, List, [], ◌∷◌, map, length, any, retain,
  ◌==◌, if◌then◌else◌,
}
use omnisec.Prelude.Maps.{get, has_number}
use omnisec.Prelude.External.{F64, FloatOps}
use omnisec.Network.Types.{
  ConnectionInfo, TrafficSnapshot, RollingTrafficWindow, TrafficStats, TrafficUpdate,
}
use omnisec.Network.Tracker.{NetworkTracker, Connections, Destination, same_place}

-- `iter().map(field).sum::<u64>()`
unfoldable pub sum_by {ℓ} : {A : Type ℓ} → (A → ℕ) → ℕ → List A → ℕ
sum_by field total [] = total
sum_by field total (x ∷ xs) = sum_by field ((total + field x) % 2 ^ 64) xs

unfoldable pub get_connections_for_pid : NetworkTracker → ℕ → List ConnectionInfo
unfolding retain
get_connections_for_pid m pid = map (λ e. e.1) (retain (λ e. e.0.0 == pid) m.connections)

unfoldable pub get_destinations : NetworkTracker → ℕ → List Destination
get_destinations m pid = elim (get m.seen_destinations pid) [ none ↦ [] | some ds ↦ ds ]

unfoldable pub is_new_destination : NetworkTracker → ℕ → Destination → Bool
unfolding any
is_new_destination m pid d = elim (get m.seen_destinations pid) [
  | none ↦ true
  | some ds ↦ not (any (λ x. same_place x d) ds)
]

unfoldable connection_count : NetworkTracker → ℕ
connection_count m = length m.connections

module _ (f : FloatOps) where
  abbrev mean_of : (TrafficSnapshot → ℕ) → List TrafficSnapshot → F64
  unfolding sum_by
  mean_of field ss =
      if length ss == 0
      then f.literal 0 1
      else f.div (f.of_nat (sum_by field 0 ss)) (f.of_nat (length ss))

  unfoldable pub window_avg_in : RollingTrafficWindow → F64
  unfolding mean_of
  window_avg_in w = mean_of (λ s. s.bytes_in) w.hour_samples

  unfoldable pub window_avg_out : RollingTrafficWindow → F64
  unfolding mean_of
  window_avg_out w = mean_of (λ s. s.bytes_out) w.hour_samples

  unfoldable pub get_traffic_stats : NetworkTracker → ℕ → TrafficStats
  unfolding sum_by get_connections_for_pid window_avg_in window_avg_out
  get_traffic_stats m pid =
      let connections = get_connections_for_pid m pid in
      let windows = get m.traffic_windows pid in
      record {
        pid = pid;
        active_connections = length connections % 2 ^ 32;
        total_bytes_in = sum_by (λ c. c.bytes_in) 0 connections;
        total_bytes_out = sum_by (λ c. c.bytes_out) 0 connections;
        hour_avg_in = elim windows [ none ↦ f.literal 0 1 | some w ↦ window_avg_in w ];
        hour_avg_out = elim windows [ none ↦ f.literal 0 1 | some w ↦ window_avg_out w ];
        unique_destinations = elim (get m.seen_destinations pid) [
          | none ↦ 0
          | some ds ↦ length ds % 2 ^ 32
        ];
      }

  -- One update for each process, where its first connection stands.
  unfoldable snapshot_from : NetworkTracker → List ℕ → Connections → List TrafficUpdate
  unfolding get_traffic_stats
  snapshot_from m seen_pids [] = []
  snapshot_from m seen_pids (e ∷ es) =
      let stats = get_traffic_stats m e.0.0 in
      let update : TrafficUpdate = record {
        pid = stats.pid;
        process_name = elim (get m.process_names stats.pid) [ none ↦ "" | some name ↦ name ];
        total_bytes_in = stats.total_bytes_in;
        total_bytes_out = stats.total_bytes_out;
        connection_count = stats.active_connections;
      } in
      elim (has_number seen_pids e.0.0) [
        | true ↦ snapshot_from m seen_pids es
        | false ↦ update ∷ snapshot_from m (e.0.0 ∷ seen_pids) es
      ]

  unfoldable collect_traffic_snapshot : NetworkTracker → List TrafficUpdate
  unfolding snapshot_from
  collect_traffic_snapshot m = snapshot_from m [] m.connections
