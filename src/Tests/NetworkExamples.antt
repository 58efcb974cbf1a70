-- ===== src/Tests/NetworkExamples.antt =====
-- Examples for the connections of processes.
use omnisec.Prelude.{◌≡◌, refl, String, false, not, List, [], ◌∷◌, any}
use omnisec.Prelude.Decimal.{decimal}
use omnisec.Prelude.Texts.{concat}
use omnisec.Network.Types.{IpAddr, v4, v6, tcp, is_established, protocol_str}
use omnisec.Network.Tracker.{Observed, new_tracker}
use omnisec.Network.Queries.{is_new_destination}
use omnisec.Network.Seen.{
  Call, registering, removing, pruning, reaches, run, is_new_destination-run,
}

abbrev written : IpAddr → String
written (v4 n) = decimal n
written (v6 n) = concat ("v6 " ∷ decimal n ∷ [])

abbrev opened : Observed
opened = record {
  pid = 7;
  process_name = "agent";
  local_ip = v4 1;
  local_port = 9_000;
  remote_ip = v4 17;
  remote_port = 443;
  protocol = tcp;
  state = is_established;
  bytes_in = 100;
  bytes_out = 50;
}

abbrev calls : List Call
calls = registering 5 opened ∷ removing 7 (v4 17) 443 ∷ pruning 900_000_000_000 60 ∷ []

-- The destination of a removed connection is not new, and the process 8 never reached it.
reached : not (any (reaches written 7 ("17", 443, "tcp")) calls) ≡ false
unfolding any decimal protocol_str
reached = refl

is_new_destination-run_example :
    is_new_destination (run written new_tracker calls) 7 ("17", 443, "tcp")
    ≡ not (any (reaches written 7 ("17", 443, "tcp")) calls)
is_new_destination-run_example = is_new_destination-run written calls 7 ("17", 443, "tcp")
