-- ===== src/Runtime/Containment.antt =====
-- What the containment engine of crates/runtime/src/process.rs tracks and which signals it sends.
use omnisec.Prelude.{
  ℕ, ◌+◌, ◌≡◌, refl, ap, sym, ◌∙◌, Option, ◌==◌, map, inl, inr, String, false, none, some, List, [],
  ◌∷◌, ◌++◌, arith, if◌then◌else◌, length, length-append, length-update_first, find, retain,
  update_first, Bool-cases,
}
use omnisec.Prelude.Maps.{mapped}
use omnisec.Prelude.External.{Uuid, DateTime}
use omnisec.Runtime.Types.{RuntimeMode, native, simulated, RuntimeAction}
use omnisec.Runtime.Process.{
  ContainmentState, suspended, running, killed, restarted, quarantined, send, ContainedProcess,
  ContainmentEngine, Signal, sigstop, sigcont, sigkill, Signals, Step, has_pid, put_state,
  is_quarantined, track, update_state, answer, suspend, resume, kill, restart, quarantine,
  contained_count, quarantined_count,
}

-- A call of the engine.
pub data Call : Type 0 where
  suspending quarantining : ℕ → String → Call
  resuming killing restarting : ℕ → Call

abbrev pub perform : ContainmentEngine → Call → Uuid → DateTime → Step
perform e (suspending pid name) id now = suspend e pid name id now
perform e (quarantining pid name) id now = quarantine e pid name id now
perform e (resuming pid) id now = resume e pid id now
perform e (killing pid) id now = kill e pid id now
perform e (restarting pid) id now = restart e pid id now

-- A sequence of calls, each with its fresh id and its time, and the signals sent.
abbrev pub run : ContainmentEngine → List (Call × Uuid × DateTime) → ContainmentEngine × Signals
run e [] = (e, [])
run e (c ∷ cs) =
    let (e', action, signals) = perform e c.0 c.1 c.2 in
    let (e'', others) = run e' cs in (e'', signals ++ others)

abbrev pub signal_of : Call → ℕ × Signal
signal_of (suspending pid name) = (pid, sigstop)
signal_of (quarantining pid name) = (pid, sigstop)
signal_of (resuming pid) = (pid, sigcont)
signal_of (killing pid) = (pid, sigkill)
signal_of (restarting pid) = (pid, sigkill)

abbrev pub tracks : Call → ℕ
tracks (suspending pid name) = 1
tracks (quarantining pid name) = 1
tracks (resuming pid) = 0
tracks (killing pid) = 0
tracks (restarting pid) = 0

-- The signals of the calls in order, which only a native build sends.
abbrev pub sent : RuntimeMode → List (Call × Uuid × DateTime) → Signals
sent native cs = map (λ c. signal_of c.0) cs
sent simulated cs = []

abbrev pub tracked_by : List (Call × Uuid × DateTime) → ℕ
tracked_by [] = 0
tracked_by (c ∷ cs) = tracks c.0 + tracked_by cs

-- The state in which the engine holds a process, if it holds it: that of its first entry.
abbrev pub state_in : List ContainedProcess → ℕ → Option ContainmentState
state_in ps q = mapped (λ p. p.state) (find (has_pid q) ps)

abbrev pub held : Option ContainmentState → ContainmentState → Option ContainmentState
held none s = some s
held (some old) s = some old

abbrev pub moved : Option ContainmentState → ContainmentState → Option ContainmentState
moved none s = none
moved (some old) s = some s

-- How a call about the process moves its state: what suspends or quarantines it counts only if it is not
-- held yet, and what releases or ends it only if it is.
abbrev pub next : Option ContainmentState → Call → Option ContainmentState
next s (suspending pid name) = held s suspended
next s (quarantining pid name) = held s quarantined
next s (resuming pid) = moved s running
next s (killing pid) = moved s killed
next s (restarting pid) = moved s restarted

abbrev pub pid_of : Call → ℕ
pid_of (suspending pid name) = pid
pid_of (quarantining pid name) = pid
pid_of (resuming pid) = pid
pid_of (killing pid) = pid
pid_of (restarting pid) = pid

abbrev pub state_after :
    ℕ → Option ContainmentState → List (Call × Uuid × DateTime) → Option ContainmentState
state_after q s [] = s
state_after q s (c ∷ cs) = state_after q (if pid_of c.0 == q then next s c.0 else s) cs

abbrev pub signals_of : RuntimeMode → Call → Signals
signals_of native c = signal_of c ∷ []
signals_of simulated c = []

-- What one call does.
abbrev pub Performed : ContainmentEngine → Call → Step → Type 0
Performed e c s =
    (s.0.mode ≡ e.mode)
    × (s.2 ≡ signals_of e.mode c)
    × (contained_count s.0 ≡ tracks c + contained_count e)
    × ((q : ℕ)
        → state_in s.0.tracked q
          ≡ (if pid_of c == q then next (state_in e.tracked q) c else state_in e.tracked q))

sent_one : (m : RuntimeMode) (c : Call) → send m (signal_of c).0 (signal_of c).1 ≡ signals_of m c
unfolding send
sent_one native c = refl
sent_one simulated c = refl

answered :
    (m : RuntimeMode) (c : Call) (a : RuntimeAction) (r : String)
    → (answer m a r (signal_of c).0 (signal_of c).1).1 ≡ signals_of m c
unfolding answer send
answered native c a r = refl
answered simulated c a r = refl

tracked_one :
    (e : ContainmentEngine) (pid : ℕ) (name : String) (s : ContainmentState) (now : DateTime)
    → contained_count (track e pid name s now) ≡ 1 + contained_count e
unfolding contained_count track
tracked_one e pid name s now = omega (arith, length-append e.tracked)

state_in-append :
    (ps : List ContainedProcess) (p : ContainedProcess) (q : ℕ)
    → state_in (ps ++ p ∷ []) q
      ≡ (if p.pid == q then held (state_in ps q) p.state else state_in ps q)
unfolding find
state_in-append [] p q = ground arith
state_in-append (x ∷ ps) p q = ground (arith, state_in-append ps p q)

state_in-track :
    (e : ContainmentEngine) (pid : ℕ) (name : String) (s : ContainmentState) (now : DateTime)
    (q : ℕ)
    → state_in (track e pid name s now).tracked q
      ≡ (if pid == q then held (state_in e.tracked q) s else state_in e.tracked q)
unfolding track
state_in-track e pid name s now q = state_in-append e.tracked _ q

updated :
    (e : ContainmentEngine) (pid : ℕ) (s : ContainmentState)
    → contained_count (update_state e pid s) ≡ 0 + contained_count e
unfolding contained_count update_state
updated e pid s = omega (arith, length-update_first (has_pid pid) (put_state s) e.tracked)

state_in-update_first :
    (pid : ℕ) (s : ContainmentState) (ps : List ContainedProcess) (q : ℕ)
    → state_in (update_first (has_pid pid) (put_state s) ps) q
      ≡ (if pid == q then moved (state_in ps q) s else state_in ps q)
unfolding update_first find
state_in-update_first pid s [] q = ground arith
state_in-update_first pid s (p ∷ ps) q = ground (arith, state_in-update_first pid s ps q)

module _ (e : ContainmentEngine) (id : Uuid) (now : DateTime) where
  pub perform-Performed : (c : Call) → Performed e c (perform e c id now)
  unfolding suspend quarantine resume kill restart track update_state
  perform-Performed (suspending pid name) = (
    refl,
    answered e.mode (suspending pid name) _ _,
    tracked_one e pid name _ now,
    state_in-track e pid name suspended now,
  )
  perform-Performed (quarantining pid name) = (
    refl,
    sent_one e.mode (quarantining pid name),
    tracked_one e pid name _ now,
    state_in-track e pid name quarantined now,
  )
  perform-Performed (resuming pid) = (
    refl,
    answered e.mode (resuming pid) _ _,
    updated e pid running,
    state_in-update_first pid running e.tracked,
  )
  perform-Performed (killing pid) = (
    refl,
    answered e.mode (killing pid) _ _,
    updated e pid killed,
    state_in-update_first pid killed e.tracked,
  )
  perform-Performed (restarting pid) = (
    refl,
    answered e.mode (restarting pid) _ _,
    updated e pid restarted,
    state_in-update_first pid restarted e.tracked,
  )

-- The signals of a call stand before those of the others.
sent_step :
    (m : RuntimeMode) (c : Call × Uuid × DateTime) (cs : List (Call × Uuid × DateTime))
    → signals_of m c.0 ++ sent m cs ≡ sent m (c ∷ cs)
sent_step native c cs = refl
sent_step simulated c cs = refl

sent_none : (m : RuntimeMode) → sent m [] ≡ []
sent_none native = refl
sent_none simulated = refl

-- Along any sequence of calls the mode stays. A native build sends the signal of each call, in order, and a
-- simulated one sends none. The tracked entries grow by one for each `suspend` and `quarantine`. The state in
-- which a process is held depends on the calls about that process alone: the first suspension or quarantine
-- decides it, later ones do not change it, and a resumption, a kill or a restart sets it if the process is held.
pub run_lem :
    (e : ContainmentEngine) (cs : List (Call × Uuid × DateTime))
    → ((run e cs).0.mode ≡ e.mode)
      × ((run e cs).1 ≡ sent e.mode cs)
      × (contained_count (run e cs).0 ≡ contained_count e + tracked_by cs)
      × ((q : ℕ) → state_in (run e cs).0.tracked q ≡ state_after q (state_in e.tracked q) cs)
run_lem e [] = (refl, sym (sent_none e.mode), omega arith, λ q. refl)
run_lem e (c ∷ cs) =
    let step = perform e c.0 c.1 c.2 in
    let (mode, signals, count, states) = perform-Performed e c.1 c.2 c.0 in
    let (mode', signals', count', states') = run_lem step.0 cs in
    (
      mode' ∙ mode,
      ap (λ l. l ++ (run step.0 cs).1) signals
          ∙ ap (λ l. signals_of e.mode c.0 ++ l) signals'
          ∙ ap (λ m. signals_of e.mode c.0 ++ sent m cs) mode
          ∙ sent_step e.mode c cs,
      omega (arith, count, count'),
      λ q. states' q ∙ ap (λ s. state_after q s cs) (states q),
    )

-- Whether the first tracked entry of a process is quarantined.
abbrev pub first_quarantined : ℕ → List ContainedProcess → ℕ
first_quarantined pid xs = elim (find (has_pid pid) xs) [
  | none ↦ 0
  | some p ↦ if is_quarantined p.state then 1 else 0
]

module _ (pid : ℕ) (state : ContainmentState) (free : is_quarantined state ≡ false) where
  retain-update_state :
      (xs : List ContainedProcess)
      → length
            (retain (λ p. is_quarantined p.state) (update_first (has_pid pid) (put_state state) xs))
          + first_quarantined pid xs
        ≡ length (retain (λ p. is_quarantined p.state) xs)
  unfolding retain update_first find
  retain-update_state [] = refl
  retain-update_state (p ∷ xs) = elim (Bool-cases (has_pid pid p)) [
    | inl m ↦ rw m (ground (arith, free))
    | inr m ↦ rw m (ground (arith, retain-update_state xs))
  ]

-- `resume`, `kill` and `restart` leave one quarantined entry fewer exactly if the first tracked entry
-- of the process is quarantined; a later entry of the same process stays quarantined.
quarantined_count-release :
    (e : ContainmentEngine) (pid : ℕ) (id : Uuid) (now : DateTime)
    → (quarantined_count (resume e pid id now).0 + first_quarantined pid e.tracked
        ≡ quarantined_count e)
      × (quarantined_count (kill e pid id now).0 + first_quarantined pid e.tracked
          ≡ quarantined_count e)
      × (quarantined_count (restart e pid id now).0 + first_quarantined pid e.tracked
          ≡ quarantined_count e)
unfolding quarantined_count resume kill restart update_state
quarantined_count-release e pid id now = (
  retain-update_state pid running refl e.tracked,
  retain-update_state pid killed refl e.tracked,
  retain-update_state pid restarted refl e.tracked,
)
