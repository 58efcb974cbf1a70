-- ===== src/Reliability/Lifecycle.antt =====
-- What holds of the incidents of crates/reliability/src/incident.rs along their life.
use omnisec.Prelude.{
  ℕ, ◌+◌, ◌≤◌, ◌≡◌, refl, inl, inr, String, Bool, true, not, ◌&&◌, ◌||◌, Option, none, some, List,
  [], ◌∷◌, arith, leb, if◌then◌else◌, All, All-imp, All-append, length, any, retain, update_first,
  Bool-cases,
}
use omnisec.Prelude.Integers.{ℤ}
use omnisec.Prelude.External.{Uuid, DateTime, F64, FloatOps}
use omnisec.Reliability.Incident.{
  IncidentState, opened, investigating, recovering, recovered, escalated, resolved, RecoveryStep,
  Incident, IncidentEngine, Report, create_incident, has_id, same_state, with_state, with_action,
  with_resolution, step_of, change, update_incident, add_recovery_action, resolve_incident,
  get_open_incidents, count_state, has_time, get_incident_stats,
}

length-retain_cons :
    {A : Type 0} (p : A → Bool) (x : A) (xs : List A)
    → length (retain p (x ∷ xs)) ≡ (if p x then 1 else 0) + length (retain p xs)
unfolding retain
length-retain_cons p x xs = ground arith

abbrev bit : Bool → ℕ
bit b = if b then 1 else 0

one_state :
    (s : IncidentState)
    → bit (same_state s opened)
        + bit (same_state s investigating)
        + bit (same_state s recovering)
        + bit (same_state s recovered)
        + bit (same_state s escalated)
        + bit (same_state s resolved)
      ≡ 1
one_state opened = refl
one_state investigating = refl
one_state recovering = refl
one_state recovered = refl
one_state escalated = refl
one_state resolved = refl

standing_state :
    (s : IncidentState)
    → bit (not (same_state s resolved) && not (same_state s recovered))
        + bit (same_state s recovered)
        + bit (same_state s resolved)
      ≡ 1
standing_state opened = refl
standing_state investigating = refl
standing_state recovering = refl
standing_state recovered = refl
standing_state escalated = refl
standing_state resolved = refl

abbrev in_state : IncidentState → Incident → Bool
in_state s i = same_state i.state s

abbrev is_standing : Incident → Bool
is_standing i = not (in_state resolved i) && not (in_state recovered i)

all_counted :
    (xs : List Incident)
    → count_state opened xs
        + count_state investigating xs
        + count_state recovering xs
        + count_state recovered xs
        + count_state escalated xs
        + count_state resolved xs
      ≡ length xs
unfolding count_state retain
all_counted [] = refl
all_counted (x ∷ xs) = omega (
  arith,
  length-retain_cons (in_state opened) x xs,
  length-retain_cons (in_state investigating) x xs,
  length-retain_cons (in_state recovering) x xs,
  length-retain_cons (in_state recovered) x xs,
  length-retain_cons (in_state escalated) x xs,
  length-retain_cons (in_state resolved) x xs,
  one_state x.state,
  all_counted xs,
)

standing_counted :
    (xs : List Incident)
    → length (retain is_standing xs) + count_state recovered xs + count_state resolved xs
      ≡ length xs
unfolding count_state retain
standing_counted [] = refl
standing_counted (x ∷ xs) = omega (
  arith,
  length-retain_cons is_standing x xs,
  length-retain_cons (in_state recovered) x xs,
  length-retain_cons (in_state resolved) x xs,
  standing_state x.state,
  standing_counted xs,
)

module _ (f : FloatOps) (of_int : ℤ → F64) where
  -- The six counts of the statistics add up to the total, which counts the open incidents and those
  -- recovered or resolved.
  get_incident_stats_lem :
      (e : IncidentEngine)
      → (let s = get_incident_stats f of_int e in
          (s.open_count + s.investigating_count + s.recovering_count + s.recovered_count
              + s.escalated_count + s.resolved_count
            ≡ s.total)
          × (length (get_open_incidents e) + s.recovered_count + s.resolved_count ≡ s.total))
  unfolding get_incident_stats get_open_incidents
  get_incident_stats_lem e = (all_counted e.incidents, standing_counted e.incidents)

-- An incident is not updated or resolved before its creation or after `now`, and a resolved incident
-- has the time of its resolution.
abbrev pub is_sound : DateTime → Incident → Bool
is_sound now i =
    leb i.created_at i.updated_at
    && leb i.updated_at now
    && (elim i.resolved_at [ none ↦ true | some r ↦ leb i.created_at r && leb r now ])
    && (not (same_state i.state resolved) || has_time i)

abbrev pub Sound : DateTime → IncidentEngine → Type 0
Sound now e = All (λ i. is_sound now i ≡ true) e.incidents

-- A call that changes the engine.
pub data Call : Type 0 where
  creating : Report → Call
  updating : Uuid → IncidentState → Call
  acting : Uuid → String → Bool → Option String → Option String → Call
  resolving : Uuid → String → Call

-- The readings of the clock in the operation of a call.
abbrev pub perform : IncidentEngine → Call → Uuid → (ℕ → DateTime) → IncidentEngine
perform e (creating r) id clock = (create_incident e r id clock).0
perform e (updating i s) id clock = (update_incident e i s clock).0
perform e (acting i kind ok error details) id clock =
    (add_recovery_action e i kind ok error details id clock).0
perform e (resolving i text) id clock = (resolve_incident e i text clock).0

-- Calls, each with its fresh id and its readings of the clock, of which no call takes more than three.
abbrev pub Calls : Type 0
Calls = List (Call × Uuid × (ℕ → DateTime))

abbrev pub run : IncidentEngine → Calls → IncidentEngine
run e [] = e
run e (c ∷ cs) = run (perform e c.0 c.1 c.2) cs

-- The clock does not go back, neither between two calls nor in one.
abbrev pub Ordered : DateTime → Calls → Type 0
Ordered t [] = Unit
Ordered t (c ∷ cs) = (t ≤ c.2 0) × (c.2 0 ≤ c.2 1) × (c.2 1 ≤ c.2 2) × Ordered (c.2 2) cs

abbrev pub last_time : DateTime → Calls → DateTime
last_time t [] = t
last_time t (c ∷ cs) = last_time (c.2 2) cs

module _ (t : DateTime) (clock : ℕ → DateTime) (o0 : t ≤ clock 0) (o1 : clock 0 ≤ clock 1)
    (o2 : clock 1 ≤ clock 2) where
  sound_later : (i : Incident) → is_sound t i ≡ true → is_sound (clock 2) i ≡ true
  sound_later i h = ground (arith, h, o0, o1, o2)

  sound-with_state :
      (s : IncidentState) (i : Incident)
      → is_sound t i ≡ true
      → is_sound (clock 2) (with_state s clock i) ≡ true
  sound-with_state s i h = ground (arith, h, o0, o1, o2)

  sound-with_action :
      (a : RecoveryStep) (i : Incident)
      → is_sound t i ≡ true
      → is_sound (clock 2) (with_action a (clock 2) i) ≡ true
  sound-with_action a i h = ground (arith, h, o0, o1, o2)

  sound-with_resolution :
      (text : String) (i : Incident)
      → is_sound t i ≡ true
      → is_sound (clock 2) (with_resolution text clock i) ≡ true
  sound-with_resolution text i h = ground (arith, h, o0, o1, o2)

  module _ (id : Uuid) (f : Incident → Incident)
      (h : (i : Incident) → is_sound t i ≡ true → is_sound (clock 2) (f i) ≡ true) where
    changed :
        (xs : List Incident)
        → All (λ i. is_sound t i ≡ true) xs
        → All (λ i. is_sound (clock 2) i ≡ true) (update_first (has_id id) f xs)
    unfolding update_first
    changed [] s = tt
    changed (x ∷ xs) s = elim (Bool-cases (has_id id x)) [
      | inl m ↦ rw m (h x s.0, All-imp sound_later xs s.1)
      | inr m ↦ rw m (sound_later x s.0, changed xs s.1)
    ]

    Sound-change : (e : IncidentEngine) → Sound t e → Sound (clock 2) (change e id f).0
    unfolding change
    Sound-change e s = elim (Bool-cases (any (has_id id) e.incidents)) [
      | inl m ↦ rw m (changed e.incidents s)
      | inr m ↦ rw m (All-imp sound_later e.incidents s)
    ]

  perform-Sound :
      (e : IncidentEngine) (c : Call) (id : Uuid)
      → Sound t e
      → Sound (clock 2) (perform e c id clock)
  unfolding create_incident update_incident add_recovery_action resolve_incident
  perform-Sound e (creating r) id s =
      All-append (λ i. is_sound (clock 2) i ≡ true) e.incidents (_ ∷ [])
        (All-imp sound_later e.incidents s) (ground (arith, o1, o2), tt)
  perform-Sound e (updating i state) id s = Sound-change i _ (sound-with_state state) e s
  perform-Sound e (acting i kind ok error details) id s =
      Sound-change i _ (sound-with_action (step_of kind ok error details id clock)) e s
  perform-Sound e (resolving i text) id s = Sound-change i _ (sound-with_resolution text) e s

-- Along any sequence of calls, each with its own readings of a clock that does not go back: if it held
-- before, no incident is updated or resolved before its creation or after the last call, and each
-- resolved incident has the time of its resolution.
pub run-Sound :
    (t : DateTime) (e : IncidentEngine) (cs : Calls)
    → Ordered t cs
    → Sound t e
    → Sound (last_time t cs) (run e cs)
run-Sound t e [] o s = s
run-Sound t e (c ∷ cs) (o0, o1, o2, later) s =
    run-Sound (c.2 2) (perform e c.0 c.1 c.2) cs later (perform-Sound t c.2 o0 o1 o2 e c.0 c.1 s)
