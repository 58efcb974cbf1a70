-- ===== src/Enforcement/Incidents.antt =====
-- The incidents of `EnforcementManager`, crates/enforcement/src/lib.rs.
use omnisec.Prelude.{
  ◌+◌, ◌≤◌, String, ◌≡◌, refl, sym, ap, ◌∙◌, inl, inr, Option, none, some, List, [], ◌∷◌, arith,
  if◌then◌else◌, length, length-append, find, retain, update_first, length-update_first,
  length-retain-le, Bool-cases, Option-cases, any, any-find,
}
use omnisec.Prelude.External.{Uuid, DateTime, Chrono}
use omnisec.Decision.Types.{DecisionAction, block, EnforcementDecision}
use omnisec.Enforcement.Network.{enforce_network, action_count, NetworkEngine, apply_action}
use omnisec.Enforcement.Manager.{
  EnforcementIncident, EnforcementManager, new, execute, has_id, resolve, is_open, resolve_incident,
  get_open_incidents, incident_count, get_stats,
}

-- What a caller does to a manager.
pub data Call : Type 0 where
  execute_call : EnforcementDecision → Uuid → Uuid → DateTime → Call
  resolve_call : Uuid → String → DateTime → Call

module _ (c : Chrono) where
  abbrev pub call : EnforcementManager → Call → EnforcementManager
  call m (execute_call d action_id incident_id now) = (execute c m d action_id incident_id now).0
  call m (resolve_call id resolution now) = (resolve_incident m id resolution now).0

  unfoldable pub run : EnforcementManager → List Call → EnforcementManager
  run m [] = m
  run m (k ∷ ks) = run (call m k) ks

open_after :
    (id : Uuid) (resolution : String) (now : DateTime) (is : List EnforcementIncident)
    (i : EnforcementIncident)
    → find (has_id id) is ≡ some i
    → length (retain (λ j. is_open j.status) (update_first (has_id id) (resolve resolution now) is))
        + (if is_open i.status then 1 else 0)
      ≡ length (retain (λ j. is_open j.status) is)
unfolding find retain update_first
open_after id resolution now [] i h = cc
open_after id resolution now (j ∷ is) i h = elim (Bool-cases (has_id id j)) [
  | inl e ↦
      let same : j ≡ i = ground arith in
      ground (arith, ap (λ (k : EnforcementIncident). is_open k.status) same)
  | inr e ↦ ground (arith, open_after id resolution now is i)
]

-- `resolve_incident` answers whether an incident has the id. It changes the first such incident and
-- no other, so that one open incident fewer is left if that one was open.
resolve_incident_lem :
    (m : EnforcementManager) (id : Uuid) (resolution : String) (now : DateTime)
    → let (m', found) = resolve_incident m id resolution now in
      (found ≡ any (has_id id) m.incidents)
      × (incident_count m' ≡ incident_count m)
      × (length (get_open_incidents m') + (elim (find (has_id id) m.incidents) [
        | none ↦ 0
        | some i ↦ if is_open i.status then 1 else 0
      ])
          ≡ length (get_open_incidents m))
unfolding resolve_incident incident_count get_open_incidents
resolve_incident_lem m id resolution now = elim (Option-cases (find (has_id id) m.incidents)) [
  | inl h ↦ rw (any-find (has_id id) m.incidents, h, resolve_incident) (refl, refl, omega arith)
  | inr (i, h) ↦
      rw (any-find (has_id id) m.incidents, h, resolve_incident)
        (
          refl,
          length-update_first (has_id id) (resolve resolution now) m.incidents,
          open_after id resolution now m.incidents i h,
        )
]

-- One incident to one action.
abbrev Paired : EnforcementManager → Type 0
Paired m = length m.incidents ≡ length m.network.actions

apply_action_actions :
    (c : Chrono) (n : NetworkEngine) (d : EnforcementDecision) (now : DateTime) (a : DecisionAction)
    → (apply_action c n d now a).0.actions ≡ n.actions
unfolding apply_action
apply_action_actions c n d now block = refl
apply_action_actions c n d now a = refl

resolve_incident_network :
    (m : EnforcementManager) (id : Uuid) (resolution : String) (now : DateTime)
    → (resolve_incident m id resolution now).0.network ≡ m.network
unfolding resolve_incident
resolve_incident_network m id resolution now = ground arith

call-Paired : (c : Chrono) (m : EnforcementManager) (k : Call) → Paired m → Paired (call c m k)
unfolding execute enforce_network incident_count
call-Paired c m (execute_call d action_id incident_id now) h = omega (
  arith,
  length-append m.incidents _,
  length-append (apply_action c m.network d now d.action).0.actions _,
  ap length (apply_action_actions c m.network d now d.action),
)
call-Paired c m (resolve_call id resolution now) h =
    (resolve_incident_lem m id resolution now).1
    ∙ h
    ∙ sym (
        ap (λ (n : NetworkEngine). length n.actions) (resolve_incident_network m id resolution now))

run-Paired : (c : Chrono) (m : EnforcementManager) (ks : List Call) → Paired m → Paired (run c m ks)
unfolding run
run-Paired c m [] h = h
run-Paired c m (k ∷ ks) h = run-Paired c (call c m k) ks (call-Paired c m k h)

-- Every decision that a manager executes leaves one action and one open incident, so that along
-- any calls on a new manager there are as many incidents as actions, and no more open ones.
pub run-counts :
    (c : Chrono) (user : Option String) (ks : List Call)
    → let stats = get_stats (run c (new user) ks) in
      (stats.total_incidents ≡ stats.total_actions) × (stats.open_incidents ≤ stats.total_incidents)
unfolding get_stats incident_count action_count get_open_incidents new
run-counts c user ks = (
  run-Paired c (new user) ks refl,
  length-retain-le (λ i. is_open i.status) (run c (new user) ks).incidents,
)
