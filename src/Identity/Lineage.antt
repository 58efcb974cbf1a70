-- ===== src/Identity/Lineage.antt =====
-- The lineage of the agents of crates/identity/src/lib.rs, over all the calls of its operations.
use omnisec.Prelude.{
  ℕ, zero, suc, ◌+◌, ◌<◌, ◌≤◌, ◌≡◌, ◌⊎◌, refl, ap, sym, subst, ◌∙◌, inl, inr, true, false, ◌==◌,
  ==_iff, Option, none, some, List, [], ◌∷◌, String, arith, if◌then◌else◌, Bool-cases, length,
}
use mathlib.Core.Option.{some-injective}
use omnisec.Prelude.Maps.{get}
use omnisec.Identity.Types.{AgentIdentityEngine, u32_mod, new_identity_engine}
use omnisec.Identity.Engine.{register_agent, record_exec, record_fork, record_exit}
use omnisec.Identity.Changes.{
  Stem, root_stem, child_stem, View, view, enter, Change, unchanged, new_root, new_child,
  register_agent-Change, record_exec-Change, record_fork-Change, record_exit-Change,
}

-- A root is at depth 0, a child is one deeper than its parent, which is an agent too.
abbrev pub ParentOf : (ℕ → Option Stem) → Stem → Option ℕ → Type 0
ParentOf agents s o = elim o [
  | none ↦ (s.depth ≡ 0) × (s.is_child ≡ false)
  | some p ↦ ((t : Stem) × (agents p ≡ some t) × (s.depth ≡ t.depth + 1)) × (s.is_child ≡ true)
]

abbrev pub Placed : (ℕ → Option Stem) → ℕ → ℕ → Stem → Type 0
Placed agents k id s = (s.id ≡ id) × (s.depth ≤ k) × ParentOf agents s s.parent

-- After `k` calls.
abbrev pub Sound : ℕ → View → Type 0
Sound k v =
    ((id : ℕ) (s : Stem) → v.agents id ≡ some s → Placed v.agents k id s)
    × ((pid id : ℕ) → v.who pid ≡ some id → (s : Stem) × (v.agents id ≡ some s))

-- The agents of `f` are all in `g`, as they are.
abbrev Extends : (ℕ → Option Stem) → (ℕ → Option Stem) → Type 0
Extends f g = (p : ℕ) (t : Stem) → f p ≡ some t → g p ≡ some t

ParentOf-Extends :
    (f g : ℕ → Option Stem)
    → Extends f g
    → (s : Stem) (o : Option ℕ) → ParentOf f s o
    → ParentOf g s o
ParentOf-Extends f g x s none h = h
ParentOf-Extends f g x s (some p) ((t, a, b), c) = ((t, x p t a, b), c)

Placed-Extends :
    (f g : ℕ → Option Stem) (k : ℕ)
    → Extends f g
    → (id : ℕ) (s : Stem) → Placed f k id s
    → Placed g (k + 1) id s
Placed-Extends f g k x id s (i, d, h) = (i, ground (arith, d), ParentOf-Extends f g x s s.parent h)

enter-Extends :
    (f g : ℕ → Option Stem) (fresh : ℕ) (r : Stem)
    → f fresh ≡ none
    → ((id : ℕ) → g id ≡ enter fresh r f id)
    → Extends f g
enter-Extends f g fresh r n h p t a = elim (Bool-cases (fresh == p)) [
  | inl e ↦ ground (arith, n, a, ap f ((==_iff fresh p).0 e))
  | inr e ↦ h p ∙ ap (λ b. if b then some r else f p) e ∙ a
]

-- What is found after an agent has come in is that agent, or was there before.
enter_cases :
    (A : Type 0) (f : ℕ → Option A) (k : ℕ) (r : A) (q : ℕ) (s : A)
    → enter k r f q ≡ some s
    → ((k ≡ q) × (r ≡ s)) ⊎ (f q ≡ some s)
enter_cases A f k r q s h = elim (Bool-cases (k == q)) [
  | inl e ↦
      inl ((==_iff k q).0 e, some-injective r s (sym (ap (λ b. if b then some r else f q) e) ∙ h))
  | inr e ↦ inr (sym (ap (λ b. if b then some r else f q) e) ∙ h)
]

module _ (k : ℕ) (v w : View) (h : Sound k v) where
  entered :
      (fresh pid : ℕ) (r : Stem)
      → v.agents fresh ≡ none
      → Placed v.agents (k + 1) fresh r
      → ((id : ℕ) → w.agents id ≡ enter fresh r v.agents id)
      → ((p : ℕ) → w.who p ≡ enter pid fresh v.who p)
      → Sound (k + 1) w
  entered fresh pid r n place ag wh = (
    λ id s a. elim (enter_cases Stem v.agents fresh r id s (sym (ag id) ∙ a)) [
      | inl (i, e) ↦
          subst (λ j. Placed w.agents (k + 1) j s) i (subst (Placed w.agents (k + 1) fresh) e new)
      | inr b ↦ Placed-Extends v.agents w.agents k extends id s (h.0 id s b)
    ],
    λ p id a. elim (enter_cases ℕ v.who pid fresh p id (sym (wh p) ∙ a)) [
      | inl (_, e) ↦
          subst (λ j. (s : Stem) × (w.agents j ≡ some s)) e
            (
              r,
              ag fresh
                  ∙ ap (λ b. if b then some r else v.agents fresh) ((==_iff fresh fresh).1 refl),
            )
      | inr b ↦ let (s, c) = h.1 p id b in (s, extends id s c)
    ],
  )
    where
      extends : Extends v.agents w.agents
      extends = enter-Extends v.agents w.agents fresh r n ag

      new : Placed w.agents (k + 1) fresh r
      new = (place.0, place.1, ParentOf-Extends v.agents w.agents extends r r.parent place.2)

  Change-Sound : k + 1 < u32_mod → Change v w → Sound (k + 1) w
  Change-Sound b (unchanged ag wh) = (
    λ id s a.
        Placed-Extends v.agents w.agents k (λ p t c. ag p ∙ c) id s (h.0 id s (sym (ag id) ∙ a)),
    λ p id a. let (s, c) = h.1 p id (sym (wh p) ∙ a) in (s, ag id ∙ c),
  )
  Change-Sound b (new_root fresh pid n ag wh) =
      entered fresh pid (root_stem fresh) n (refl, ground arith, (refl, refl)) ag wh
  Change-Sound b (new_child fresh pid parent_id p n c ag wh) =
      let (_, d, _) = h.0 parent_id p c in
      entered fresh pid (child_stem fresh parent_id p) n
        (refl, ground (arith, d), ((p, c, ground (arith, d, b)), refl)) ag wh

pub data Call : Type 0 where
  registering : ℕ → ℕ → ℕ → ℕ → String → String → Option String → Call
  exec : ℕ → ℕ → ℕ → ℕ → String → String → Call
  fork : ℕ → ℕ → ℕ → ℕ → String → Call
  exit : ℕ → ℕ → Call

abbrev pub apply : AgentIdentityEngine → Call → AgentIdentityEngine
apply e (registering fresh now pid ppid name comm framework) =
    (register_agent fresh now e pid ppid name comm framework).0
apply e (exec fresh now pid ppid comm filename) = (record_exec fresh now e pid ppid comm filename).0
apply e (fork fresh now parent_pid child_pid comm) =
    (record_fork fresh now e parent_pid child_pid comm).0
apply e (exit now pid) = record_exit now e pid

abbrev pub run : AgentIdentityEngine → List Call → AgentIdentityEngine
run e [] = e
run e (c ∷ cs) = run (apply e c) cs

-- The `Uuid` that a call draws is not one of an agent that there is.
abbrev pub Fresh : AgentIdentityEngine → Call → Type 0
Fresh e (registering fresh now pid ppid name comm framework) = get e.identities fresh ≡ none
Fresh e (exec fresh now pid ppid comm filename) = get e.identities fresh ≡ none
Fresh e (fork fresh now parent_pid child_pid comm) = get e.identities fresh ≡ none
Fresh e (exit now pid) = Unit

abbrev pub AllFresh : AgentIdentityEngine → List Call → Type 0
AllFresh e [] = Unit
AllFresh e (c ∷ cs) = Fresh e c × AllFresh (apply e c) cs

pub apply-Change :
    (e : AgentIdentityEngine) (c : Call) → Fresh e c → Change (view e) (view (apply e c))
apply-Change e (registering fresh now pid ppid name comm framework) n =
    register_agent-Change fresh now e n pid ppid name comm framework
apply-Change e (exec fresh now pid ppid comm filename) n =
    record_exec-Change fresh now e n pid ppid comm filename
apply-Change e (fork fresh now parent_pid child_pid comm) n =
    record_fork-Change fresh now e n parent_pid child_pid comm
apply-Change e (exit now pid) n = record_exit-Change now e pid

run-Sound :
    (k : ℕ) (cs : List Call) (e : AgentIdentityEngine)
    → k + length cs < u32_mod
    → AllFresh e cs
    → Sound k (view e)
    → Sound (k + length cs) (view (run e cs))
run-Sound k [] e b f h = subst (λ n. Sound n (view e)) (ground arith) h
run-Sound k (c ∷ cs) e b f h =
    subst (λ n. Sound n (view (run (apply e c) cs))) (ground arith)
      (run-Sound (k + 1) cs (apply e c) (ground (arith, b)) f.1
        (Change-Sound k (view e) (view (apply e c)) h (ground (arith, b)) (apply-Change e c f.0)))

-- From the agent `id` up to a root it takes `n` steps to a parent.
pub data Descends (agents : ℕ → Option Stem) : ℕ → ℕ → Type 0 where
  at_root : (id : ℕ) (s : Stem) → agents id ≡ some s → s.parent ≡ none → Descends agents id 0
  step :
      (id p n : ℕ) (s : Stem)
      → agents id ≡ some s
      → s.parent ≡ some p
      → Descends agents p n
      → Descends agents id (n + 1)

module _ (k : ℕ) (v : View) (h : Sound k v) where
  by_parent :
      (n id : ℕ) (s : Stem) (o : Option ℕ)
      → v.agents id ≡ some s
      → s.depth ≡ n
      → s.parent ≡ o
      → ParentOf v.agents s o
      → ((p : ℕ) (t : Stem)
          → s.parent ≡ some p
          → v.agents p ≡ some t
          → n ≡ t.depth + 1
          → Descends v.agents id n)
      → Descends v.agents id n
  by_parent n id s none a e m (d, _) up =
      subst (Descends v.agents id) (sym d ∙ e) (at_root id s a m)
  by_parent n id s (some p) a e m ((t, c, d), _) up = up p t m c (sym e ∙ d)

  descends : (n id : ℕ) (s : Stem) → v.agents id ≡ some s → s.depth ≡ n → Descends v.agents id n
  descends zero id s a e =
      by_parent zero id s s.parent a e refl (h.0 id s a).2 (λ p t m c d. ground (arith, d))
  descends (suc n) id s a e = by_parent (suc n) id s s.parent a e refl (h.0 id s a).2 (λ p t m c d.
      subst (Descends v.agents id) (ground arith)
        (step id p n s a m (descends n p t c (ground (arith, d)))))

-- Fewer than 2 ^ 32 calls of `register_agent`, `record_exec`, `record_fork` and `record_exit` in any order,
-- on an engine that starts empty and draws `Uuid`s that are new: an agent has the id it is filed under, and
-- from it to a root there are as many steps to a parent agent as its depth in the process tree says; and a
-- process that is mapped to an agent is mapped to one that there is.
pub run-Descends :
    (cs : List Call)
    → length cs < u32_mod
    → AllFresh new_identity_engine cs
    → ((id : ℕ) (s : Stem)
        → (view (run new_identity_engine cs)).agents id ≡ some s
        → (s.id ≡ id) × Descends (view (run new_identity_engine cs)).agents id s.depth)
      × ((pid id : ℕ)
          → (view (run new_identity_engine cs)).who pid ≡ some id
          → (s : Stem) × ((view (run new_identity_engine cs)).agents id ≡ some s))
unfolding new_identity_engine get
run-Descends cs b f =
    let v = view (run new_identity_engine cs) in
    let h = run-Sound 0 cs new_identity_engine (ground (arith, b)) f start in
    (λ id s a. ((h.0 id s a).0, descends (0 + length cs) v h s.depth id s a refl), h.1)
  where
    start : Sound 0 (view new_identity_engine)
    start = (λ id s a. ground (arith, a), λ pid id a. ground (arith, a))
