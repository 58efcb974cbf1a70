-- ===== src/Network/Tracker.antt =====
-- The operations of `NetworkTracker` in crates/network/src/lib.rs that change it. The time is an argument; how an
-- address is written is the parameter `ip_text`.
use omnisec.Prelude.{
  ℕ, ◌-◌, ◌*◌, ◌/◌, String, Bool, true, false, not, ◌&&◌, Option, none, some, List, [], ◌∷◌, ◌++◌,
  length, any, find, retain, update_first, ltb, ◌==◌, if◌then◌else◌,
}
use text.Mathlib.Text.{◌==◌ as str_eq}
use omnisec.Prelude.Maps.{NatMap, get, put, put_new, alter}
use omnisec.Prelude.External.{DateTime, nanos_per_sec}
use omnisec.Network.Types.{
  IpAddr, same_ip, Protocol, tcp, protocol_str, ConnectionState, ConnectionInfo, ConnectionKey,
  same_connection, TrafficSnapshot, RollingTrafficWindow, ProcConnection,
}

unfoldable pub new_window : RollingTrafficWindow
new_window = record { hour_samples = []; day_samples = []; week_samples = [] }

-- A difference of instants below 0 counts as 0: it is below each bound too.
abbrev pub younger : ℕ → ℕ → DateTime → TrafficSnapshot → Bool
younger unit bound now s = ltb ((now - s.timestamp) / (unit * nanos_per_sec)) bound

unfoldable pub add_sample : DateTime → RollingTrafficWindow → TrafficSnapshot → RollingTrafficWindow
unfolding retain
add_sample now w sample = record {
  hour_samples = retain (younger 60 60 now) (w.hour_samples ++ sample ∷ []);
  day_samples = retain (younger 3_600 24 now) (w.day_samples ++ sample ∷ []);
  week_samples = retain (younger 86_400 7 now) (w.week_samples ++ sample ∷ []);
}

-- An address as text, a port and a protocol
abbrev pub Destination : Type 0
Destination = String × ℕ × String

abbrev pub same_place : Destination → Destination → Bool
same_place a b = str_eq a.0 b.0 && a.1 == b.1 && str_eq a.2 b.2

unfoldable pub add_destination : Destination → List Destination → List Destination
unfolding any
add_destination d ds = if any (λ x. same_place x d) ds then ds else d ∷ ds

abbrev pub Connections : Type 0
Connections = List ((ℕ × ConnectionKey) × ConnectionInfo)

pub record NetworkTracker : Type 0 where
  pub connections : Connections
  pub traffic_windows : NatMap RollingTrafficWindow
  pub seen_destinations : NatMap (List Destination)
  pub process_names : NatMap String

unfoldable pub new_tracker : NetworkTracker
new_tracker = record {
  connections = [];
  traffic_windows = [];
  seen_destinations = [];
  process_names = [];
}

abbrev pub at_key : ℕ → ConnectionKey → (ℕ × ConnectionKey) × ConnectionInfo → Bool
at_key pid key e = e.0.0 == pid && same_connection e.0.1 key

-- `connections.insert` replaces the value of a key that is there.
unfoldable pub insert_connection : ℕ → ConnectionKey → ConnectionInfo → Connections → Connections
unfolding any update_first
insert_connection pid key info cs =
    if any (at_key pid key) cs
    then update_first (at_key pid key) (λ e. (e.0, info)) cs
    else cs ++ ((pid, key), info) ∷ []

-- The arguments of `register_connection`.
pub record Observed : Type 0 where
  pub pid : ℕ
  pub process_name : String
  pub local_ip : IpAddr
  pub local_port : ℕ
  pub remote_ip : IpAddr
  pub remote_port : ℕ
  pub protocol : Protocol
  pub state : ConnectionState
  pub bytes_in : ℕ
  pub bytes_out : ℕ

abbrev pub key_of : Observed → ConnectionKey
key_of o = record {
  local_ip = o.local_ip;
  local_port = o.local_port;
  remote_ip = o.remote_ip;
  remote_port = o.remote_port;
  protocol = o.protocol;
}

unfoldable pub remove_connection : NetworkTracker → ℕ → IpAddr → ℕ → NetworkTracker
unfolding retain
remove_connection m pid remote_ip remote_port = record m {
  connections =
      retain
        (λ e.
          not
            (e.0.0 == pid && same_ip e.0.1.remote_ip remote_ip && e.0.1.remote_port == remote_port))
        m.connections;
}

-- For an age that is not negative.
unfoldable pub prune_stale_connections : DateTime → ℕ → NetworkTracker → NetworkTracker
unfolding retain
prune_stale_connections now max_age_secs m = record m {
  connections =
      retain (λ e. ltb ((now - e.1.last_seen) / nanos_per_sec) max_age_secs) m.connections;
}

module _ (ip_text : IpAddr → String) where
  abbrev pub destination_of : Observed → Destination
  destination_of o = (ip_text o.remote_ip, o.remote_port, protocol_str o.protocol)

  unfoldable pub register_connection : DateTime → NetworkTracker → Observed → NetworkTracker × Bool
  unfolding find insert_connection add_sample add_destination
  register_connection now m o =
      let existing = find (at_key o.pid (key_of o)) m.connections in
      let first_seen : DateTime = elim existing [ none ↦ now | some e ↦ e.1.first_seen ] in
      let info : ConnectionInfo = record {
        pid = o.pid;
        process_name = o.process_name;
        local_ip = o.local_ip;
        local_port = o.local_port;
        remote_ip = o.remote_ip;
        remote_port = o.remote_port;
        protocol = o.protocol;
        state = o.state;
        bytes_in = o.bytes_in;
        bytes_out = o.bytes_out;
        first_seen = first_seen;
        last_seen = now;
      } in
      let connections = insert_connection o.pid (key_of o) info m.connections in
      let traffic : TrafficSnapshot = record {
        timestamp = now;
        bytes_in = o.bytes_in;
        bytes_out = o.bytes_out;
        connection_count = length connections;
      } in
      (
        record {
          connections = connections;
          traffic_windows =
              alter (put_new m.traffic_windows o.pid new_window) o.pid
                (λ w. add_sample now w traffic);
          seen_destinations =
              alter (put_new m.seen_destinations o.pid []) o.pid
                (add_destination (destination_of o));
          process_names = put m.process_names o.pid o.process_name;
        },
        elim existing [ none ↦ true | some e ↦ false ],
      )

  -- What the system answers: the processes of the sockets, the names of processes, and how addresses are read.
  module _ (inode_map : NatMap ℕ) (read_proc_comm : ℕ → String)
      (parse_ip : String → Option IpAddr) where
    abbrev pub name_of : NetworkTracker → ℕ → String
    name_of m pid = elim (get m.process_names pid) [ none ↦ read_proc_comm pid | some name ↦ name ]

    -- What one line of /proc/net/tcp gives; the lines that are passed over give none.
    unfoldable pub observed_of : NetworkTracker → ProcConnection → Option Observed
    observed_of m c = if c.inode == 0 then none else elim (get inode_map c.inode) [
      | none ↦ none
      | some pid ↦ elim (parse_ip c.local_ip) [
        | none ↦ none
        | some local_ip ↦ elim (parse_ip c.remote_ip) [
          | none ↦ none
          | some remote_ip ↦
              if str_eq c.remote_ip "0.0.0.0"
              then none
              else some (record {
                pid = pid;
                process_name = name_of m pid;
                local_ip = local_ip;
                local_port = c.local_port;
                remote_ip = remote_ip;
                remote_port = c.remote_port;
                protocol = tcp;
                state = c.state;
                bytes_in = 0;
                bytes_out = 0;
              })
        ]
      ]
    ]

    unfoldable pub register_all : DateTime → NetworkTracker → List ProcConnection → NetworkTracker
    unfolding observed_of
    register_all now m [] = m
    register_all now m (c ∷ cs) =
        register_all now
          (elim (observed_of m c) [ none ↦ m | some o ↦ (register_connection now m o).0 ]) cs

    unfoldable pub collect_connections_linux :
        DateTime → NetworkTracker → List ProcConnection → NetworkTracker
    unfolding register_all
    collect_connections_linux now m cs = prune_stale_connections now 60 (register_all now m cs)
