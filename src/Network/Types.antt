-- ===== src/Network/Types.antt =====
-- The data of crates/network/src/lib.rs, and what it reads of the states in /proc/net/tcp.
use omnisec.Prelude.{ℕ, String, Bool, false, ◌&&◌, List, ◌==◌, if◌then◌else◌}
use text.Mathlib.Text.{◌==◌ as str_eq}
use omnisec.Prelude.External.{DateTime, F64}

-- std::net::IpAddr, with the bits of the address
pub data IpAddr : Type 0 where
  v4 v6 : ℕ → IpAddr

abbrev pub same_ip : IpAddr → IpAddr → Bool
same_ip (v4 a) (v4 b) = a == b
same_ip (v4 a) (v6 b) = false
same_ip (v6 a) (v4 b) = false
same_ip (v6 a) (v6 b) = a == b

pub data Protocol : Type 0 where
  tcp udp raw unix : Protocol
  unknown_protocol : String → Protocol

abbrev protocol_tag : Protocol → ℕ
protocol_tag tcp = 0
protocol_tag udp = 1
protocol_tag raw = 2
protocol_tag unix = 3
protocol_tag (unknown_protocol s) = 4

unfoldable pub protocol_str : Protocol → String
protocol_str tcp = "tcp"
protocol_str udp = "udp"
protocol_str raw = "raw"
protocol_str unix = "unix"
protocol_str (unknown_protocol s) = s

unfoldable pub same_protocol : Protocol → Protocol → Bool
unfolding protocol_str
same_protocol p q = protocol_tag p == protocol_tag q && str_eq (protocol_str p) (protocol_str q)

pub data ConnectionState : Type 0 where
  is_established listen close_wait time_wait syn_sent syn_recv : ConnectionState
  unknown_state : String → ConnectionState

unfoldable parse_tcp_state : String → ConnectionState
parse_tcp_state code =
    if str_eq code "01"
    then is_established
    else if str_eq code "02"
    then syn_sent
    else if str_eq code "03"
    then syn_recv
    else if str_eq code "04"
    then time_wait
    else if str_eq code "05"
    then close_wait
    else if str_eq code "0A"
    then listen
    else unknown_state code

pub record ConnectionInfo : Type 0 where
  pub pid : ℕ
  pub process_name : String
  pub local_ip : IpAddr
  pub local_port : ℕ
  pub remote_ip : IpAddr
  pub remote_port : ℕ
  pub protocol : Protocol
  pub state : ConnectionState
  pub bytes_in : ℕ
  pub bytes_out : ℕ
  pub first_seen : DateTime
  pub last_seen : DateTime

pub record ConnectionKey : Type 0 where
  pub local_ip : IpAddr
  pub local_port : ℕ
  pub remote_ip : IpAddr
  pub remote_port : ℕ
  pub protocol : Protocol

unfoldable pub same_connection : ConnectionKey → ConnectionKey → Bool
unfolding same_protocol
same_connection a b =
    same_ip a.local_ip b.local_ip
    && a.local_port == b.local_port
    && same_ip a.remote_ip b.remote_ip
    && a.remote_port == b.remote_port
    && same_protocol a.protocol b.protocol

pub record TrafficSnapshot : Type 0 where
  pub timestamp : DateTime
  pub bytes_in : ℕ
  pub bytes_out : ℕ
  pub connection_count : ℕ

pub record RollingTrafficWindow : Type 0 where
  pub hour_samples : List TrafficSnapshot
  pub day_samples : List TrafficSnapshot
  pub week_samples : List TrafficSnapshot

pub record TrafficStats : Type 0 where
  pub pid : ℕ
  pub active_connections : ℕ
  pub total_bytes_in : ℕ
  pub total_bytes_out : ℕ
  pub hour_avg_in : F64
  pub hour_avg_out : F64
  pub unique_destinations : ℕ

pub record TrafficUpdate : Type 0 where
  pub pid : ℕ
  pub process_name : String
  pub total_bytes_in : ℕ
  pub total_bytes_out : ℕ
  pub connection_count : ℕ

pub record ProcConnection : Type 0 where
  pub local_ip : String
  pub local_port : ℕ
  pub remote_ip : String
  pub remote_port : ℕ
  pub state : ConnectionState
  pub inode : ℕ
  pub rx_bytes : ℕ
  pub tx_bytes : ℕ
