-- ===== src/Identity/Changes.antt =====
-- What the operations of crates/identity/src/lib.rs do to the lineage of the agents and to the agents that
-- processes belong to.
use omnisec.Prelude.{
  ℕ, ◌+◌, ◌%◌, ◌≡◌, refl, ap, ◌∙◌, inl, inr, Bool, true, false, ◌==◌, Option, none, some, String,
  if◌then◌else◌,
}
use omnisec.Prelude.Maps.{found_or_not, NatMap, get, put, alter, mapped, get-put, get-alter}
use omnisec.Identity.Types.{AgentRuntimeIdentity, AgentIdentityEngine, u32_mod}
use omnisec.Identity.Engine.{
  register_new, register_agent, exec_new, exec_update, record_exec, record_fork, record_exit,
  push_child, root_identity, update_process_tree,
}

-- The part of an identity that never changes.
pub record Stem : Type 0 where
  pub id : ℕ
  pub depth : ℕ
  pub parent : Option ℕ
  pub is_child : Bool

abbrev pub stem : AgentRuntimeIdentity → Stem
stem r = record {
  id = r.agent_id;
  depth = r.process_tree_depth;
  parent = r.parent_agent_id;
  is_child = r.is_child_process;
}

abbrev pub root_stem : ℕ → Stem
root_stem id = record { id = id; depth = 0; parent = none; is_child = false }

abbrev pub child_stem : ℕ → ℕ → Stem → Stem
child_stem id parent_id p = record {
  id = id;
  depth = (p.depth + 1) % u32_mod;
  parent = some parent_id;
  is_child = true;
}

-- The agents, and the agent that a process belongs to.
pub record View : Type 0 where
  pub agents : ℕ → Option Stem
  pub who : ℕ → Option ℕ

abbrev pub view_of : NatMap AgentRuntimeIdentity → NatMap ℕ → View
view_of ids pids = record { agents = λ id. mapped stem (get ids id); who = λ pid. get pids pid }

abbrev pub view : AgentIdentityEngine → View
view e = view_of e.identities e.pid_map

abbrev pub enter {ℓ} : {A : Type ℓ} → ℕ → A → (ℕ → Option A) → ℕ → Option A
enter k x f j = if k == j then some x else f j

-- No change, a new root agent for a process, or a new child, for a process, of an agent that there is.
pub data Change (v w : View) : Type 0 where
  unchanged :
      ((id : ℕ) → w.agents id ≡ v.agents id) → ((pid : ℕ) → w.who pid ≡ v.who pid) → Change v w
  new_root :
      (fresh pid : ℕ)
      → v.agents fresh ≡ none
      → ((id : ℕ) → w.agents id ≡ enter fresh (root_stem fresh) v.agents id)
      → ((p : ℕ) → w.who p ≡ enter pid fresh v.who p)
      → Change v w
  new_child :
      (fresh pid parent_id : ℕ) (p : Stem)
      → v.agents fresh ≡ none
      → v.agents parent_id ≡ some p
      → ((id : ℕ) → w.agents id ≡ enter fresh (child_stem fresh parent_id p) v.agents id)
      → ((p : ℕ) → w.who p ≡ enter pid fresh v.who p)
      → Change v w

module _ (m : NatMap AgentRuntimeIdentity) where
  stem-alter :
      (a : ℕ) (f : AgentRuntimeIdentity → AgentRuntimeIdentity)
      → ((x : AgentRuntimeIdentity) → stem (f x) ≡ stem x)
      → (q : ℕ) → mapped stem (get (alter m a f) q) ≡ mapped stem (get m q)
  stem-alter a f h q = ap (mapped stem) (get-alter m a q f) ∙ kept (a == q) (get m q)
    where
      kept :
          (b : Bool) (found : Option AgentRuntimeIdentity)
          → mapped stem (if b then mapped f found else found) ≡ mapped stem found
      kept true none = refl
      kept true (some x) = ap some (h x)
      kept false found = refl

  stem-put :
      (k : ℕ) (r : AgentRuntimeIdentity) (q : ℕ)
      → mapped stem (get (put m k r) q) ≡ enter k (stem r) (λ i. mapped stem (get m i)) q
  stem-put k r q = ap (mapped stem) (get-put m k q r) ∙ split (k == q)
    where
      split :
          (b : Bool)
          → mapped stem (if b then some r else get m q)
            ≡ (if b then some (stem r) else mapped stem (get m q))
      split true = refl
      split false = refl

enter_same {ℓ} :
    {A : Type ℓ}
    → (k : ℕ) (x : A) (f g : ℕ → Option A) (q : ℕ) → f q ≡ g q
    → enter k x f q ≡ enter k x g q
enter_same k x f g q h = ap (λ y. if k == q then some x else y) h

module _ (fresh now : ℕ) (e : AgentIdentityEngine) (n : get e.identities fresh ≡ none) where
  absent : (view e).agents fresh ≡ none
  absent = ap (mapped stem) n

  child_Change :
      (base : NatMap AgentRuntimeIdentity) (pid parent_id : ℕ) (parent r : AgentRuntimeIdentity)
      → ((q : ℕ) → mapped stem (get base q) ≡ mapped stem (get e.identities q))
      → get e.identities parent_id ≡ some parent
      → stem r ≡ child_stem fresh parent_id (stem parent)
      → Change (view e) (view_of (put base fresh r) (put e.pid_map pid fresh))
  child_Change base pid parent_id parent r b k c =
      new_child fresh pid parent_id (stem parent) absent (ap (mapped stem) k)
        (λ q.
          stem-put base fresh r q
          ∙ ap (λ y. if fresh == q then some (stem r) else y) (b q)
          ∙ ap (λ x. enter fresh x (view e).agents q) c)
        (λ p. get-put e.pid_map pid p fresh)

  root_Change :
      (pid : ℕ) (r : AgentRuntimeIdentity)
      → stem r ≡ root_stem fresh
      → Change (view e) (view_of (put e.identities fresh r) (put e.pid_map pid fresh))
  root_Change pid r c =
      new_root fresh pid absent
        (λ q. stem-put e.identities fresh r q ∙ ap (λ x. enter fresh x (view e).agents q) c)
        (λ p. get-put e.pid_map pid p fresh)

  kept :
      (a : ℕ) (f : AgentRuntimeIdentity → AgentRuntimeIdentity)
      → ((x : AgentRuntimeIdentity) → stem (f x) ≡ stem x)
      → Change (view e) (view_of (alter e.identities a f) e.pid_map)
  kept a f c = unchanged (stem-alter e.identities a f c) (λ p. refl)

  register_new-Change :
      (pid ppid : ℕ) (name comm : String) (framework : Option String)
      → Change (view e) (view (register_new fresh now e pid ppid name comm framework).0)
  unfolding register_new update_process_tree
  register_new-Change pid ppid name comm framework = elim (found_or_not (get e.pid_map ppid)) [
    | inl h ↦
        rw (register_new, h)
          (root_Change pid (root_identity fresh now pid ppid name comm framework) refl)
    | inr (parent_id, h) ↦ elim (found_or_not (get e.identities parent_id)) [
      | inl k ↦
          rw (register_new, h, k)
            (root_Change pid (root_identity fresh now pid ppid name comm framework) refl)
      | inr (parent, k) ↦
          rw (register_new, h, k)
            (child_Change (alter e.identities parent_id (push_child pid)) pid parent_id parent _
              (stem-alter e.identities parent_id (push_child pid) (λ x. refl)) k refl)
    ]
  ]

  pub register_agent-Change :
      (pid ppid : ℕ) (name comm : String) (framework : Option String)
      → Change (view e) (view (register_agent fresh now e pid ppid name comm framework).0)
  unfolding register_agent update_process_tree
  register_agent-Change pid ppid name comm framework = elim (found_or_not (get e.pid_map pid)) [
    | inl h ↦ rw (register_agent, h) (register_new-Change pid ppid name comm framework)
    | inr (id, h) ↦ elim (found_or_not (get e.identities id)) [
      | inl k ↦ rw (register_agent, h, k) (register_new-Change pid ppid name comm framework)
      | inr (r, k) ↦
          rw (register_agent, h, k)
            (kept id (λ x. record x { ppid = ppid; last_seen = now; framework = framework })
              (λ x. refl))
    ]
  ]

  exec_new-Change :
      (pid ppid : ℕ) (comm filename : String)
      → Change (view e) (view (exec_new fresh now e pid ppid comm filename).0)
  unfolding exec_new update_process_tree
  exec_new-Change pid ppid comm filename = elim (found_or_not (get e.pid_map ppid)) [
    | inl h ↦ rw (exec_new, h) (unchanged (λ q. refl) (λ p. refl))
    | inr (parent_id, h) ↦ elim (found_or_not (get e.identities parent_id)) [
      | inl k ↦ rw (exec_new, h, k) (unchanged (λ q. refl) (λ p. refl))
      | inr (parent, k) ↦
          rw (exec_new, h, k) (child_Change e.identities pid parent_id parent _ (λ q. refl) k refl)
    ]
  ]

  pub record_exec-Change :
      (pid ppid : ℕ) (comm filename : String)
      → Change (view e) (view (record_exec fresh now e pid ppid comm filename).0)
  unfolding record_exec
  record_exec-Change pid ppid comm filename = elim (found_or_not (get e.pid_map pid)) [
    | inl h ↦ rw (record_exec, h) (exec_new-Change pid ppid comm filename)
    | inr (id, h) ↦ elim (found_or_not (get e.identities id)) [
      | inl k ↦ rw (record_exec, h, k) (exec_new-Change pid ppid comm filename)
      | inr (r, k) ↦
          rw (record_exec, h, k) (kept id (exec_update fresh now comm filename) (λ x. refl))
    ]
  ]

  pub record_fork-Change :
      (parent_pid child_pid : ℕ) (comm : String)
      → Change (view e) (view (record_fork fresh now e parent_pid child_pid comm).0)
  unfolding record_fork update_process_tree
  record_fork-Change parent_pid child_pid comm = elim (found_or_not (get e.pid_map parent_pid)) [
    | inl h ↦ rw (record_fork, h) (unchanged (λ q. refl) (λ p. refl))
    | inr (parent_id, h) ↦ elim (found_or_not (get e.identities parent_id)) [
      | inl k ↦ rw (record_fork, h, k) (unchanged (λ q. refl) (λ p. refl))
      | inr (parent, k) ↦
          rw (record_fork, h, k)
            (child_Change (alter e.identities parent_id (push_child child_pid)) child_pid parent_id
              parent _ (stem-alter e.identities parent_id (push_child child_pid) (λ x. refl)) k
              refl)
    ]
  ]

pub record_exit-Change :
    (now : ℕ) (e : AgentIdentityEngine) (pid : ℕ) → Change (view e) (view (record_exit now e pid))
unfolding record_exit
record_exit-Change now e pid = elim (found_or_not (get e.pid_map pid)) [
  | inl h ↦ rw (record_exit, h) (unchanged (λ q. refl) (λ p. refl))
  | inr (id, h) ↦
      rw (record_exit, h) (unchanged (stem-alter e.identities id _ (λ x. refl)) (λ p. refl))
]
