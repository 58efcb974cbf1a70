-- ===== src/Network/Seen.antt =====
-- Which destinations are new to a process, along any run of calls of crates/network/src/lib.rs.
use omnisec.Prelude.{
  ℕ, ◌≡◌, refl, inl, inr, String, Bool, true, false, not, ◌&&◌, ◌||◌, Option, none, some, List, [],
  ◌∷◌, any, arith, ◌==◌, ==_iff, Bool-cases, if◌then◌else◌,
}
use text.Mathlib.TextEquality.{eq_iff}
use omnisec.Prelude.Maps.{NatMap, get, put_new, alter, get-alter, get-put_new, found_or_not}
use omnisec.Prelude.External.{DateTime}
use omnisec.Network.Types.{IpAddr}
use omnisec.Network.Tracker.{
  NetworkTracker, Observed, Destination, same_place, add_destination, destination_of,
  register_connection, remove_connection, prune_stale_connections, new_tracker,
}
use omnisec.Network.Queries.{is_new_destination}

pub data Call : Type 0 where
  registering : DateTime → Observed → Call
  removing : ℕ → IpAddr → ℕ → Call
  pruning : DateTime → ℕ → Call

same_place_sound : (a b : Destination) → same_place a b ≡ true → a ≡ b
same_place_sound (ip, port, protocol) (ip', port', protocol') h =
    ground (arith, h, eq_iff ip ip', ==_iff port port', eq_iff protocol protocol')

any-add_destination :
    (d e : Destination) (ds : List Destination)
    → any (λ x. same_place x e) (add_destination d ds)
      ≡ (same_place d e || any (λ x. same_place x e) ds)
unfolding add_destination any
any-add_destination d e ds = elim (Bool-cases (any (λ x. same_place x d) ds)) [
  | inl old ↦ elim (Bool-cases (same_place d e)) [
    | inl s ↦ rw (old, s, ← same_place_sound d e s) old
    | inr s ↦ rw (old, s)
  ]
  | inr new ↦ rw new
]

abbrev places : Option (List Destination) → List Destination
places none = []
places (some ds) = ds

places-register :
    (seen : NatMap (List Destination)) (pid q : ℕ) (d : Destination)
    → places (get (alter (put_new seen pid []) pid (add_destination d)) q)
      ≡ (if pid == q then add_destination d (places (get seen q)) else places (get seen q))
places-register seen pid q d = ground (
  arith,
  get-alter (put_new seen pid []) pid q (add_destination d),
  get-put_new seen pid q [],
  ==_iff pid q,
)

is_new_lem :
    (m : NetworkTracker) (q : ℕ) (e : Destination)
    → is_new_destination m q e
      ≡ not (any (λ x. same_place x e) (places (get m.seen_destinations q)))
unfolding is_new_destination any
is_new_lem m q e = elim (found_or_not (get m.seen_destinations q)) [
  | inl h ↦ rw (is_new_destination, h) refl
  | inr (ds, h) ↦ rw (is_new_destination, h) refl
]

module _ (ip_text : IpAddr → String) where
  abbrev pub perform : NetworkTracker → Call → NetworkTracker
  perform m (registering now o) = (register_connection ip_text now m o).0
  perform m (removing pid remote_ip remote_port) = remove_connection m pid remote_ip remote_port
  perform m (pruning now max_age_secs) = prune_stale_connections now max_age_secs m

  abbrev pub run : NetworkTracker → List Call → NetworkTracker
  run m [] = m
  run m (c ∷ cs) = run (perform m c) cs

  -- A connection of the process to the destination.
  abbrev pub reaches : ℕ → Destination → Call → Bool
  reaches q e (registering now o) = o.pid == q && same_place (destination_of ip_text o) e
  reaches q e (removing pid remote_ip remote_port) = false
  reaches q e (pruning now max_age_secs) = false

  seen_lem :
      (m : NetworkTracker) (c : Call) (q : ℕ) (e : Destination)
      → any (λ x. same_place x e) (places (get (perform m c).seen_destinations q))
        ≡ (reaches q e c || any (λ x. same_place x e) (places (get m.seen_destinations q)))
  unfolding register_connection remove_connection prune_stale_connections
  seen_lem m (registering now o) q e = ground (
    arith,
    places-register m.seen_destinations o.pid q (destination_of ip_text o),
    any-add_destination (destination_of ip_text o) e (places (get m.seen_destinations q)),
  )
  seen_lem m (removing pid remote_ip remote_port) q e = refl
  seen_lem m (pruning now max_age_secs) q e = refl

  seen_all :
      (cs : List Call) (m : NetworkTracker) (q : ℕ) (e : Destination)
      → any (λ x. same_place x e) (places (get (run m cs).seen_destinations q))
        ≡ (any (reaches q e) cs || any (λ x. same_place x e) (places (get m.seen_destinations q)))
  unfolding any
  seen_all [] m q e = refl
  seen_all (c ∷ cs) m q e = ground (arith, seen_all cs (perform m c) q e, seen_lem m c q e)

  -- After any run of registered, removed and pruned connections on an empty tracker, a destination is new to a
  -- process exactly where no connection of the process to it was ever registered: a removal or a pruning of the
  -- connections does not make it new again.
  pub is_new_destination-run :
      (cs : List Call) (q : ℕ) (e : Destination)
      → is_new_destination (run new_tracker cs) q e ≡ not (any (reaches q e) cs)
  unfolding any new_tracker get
  is_new_destination-run cs q e =
      ground (arith, is_new_lem (run new_tracker cs) q e, seen_all cs new_tracker q e)
