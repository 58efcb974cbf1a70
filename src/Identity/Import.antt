-- ===== src/Identity/Import.antt =====
-- Identities survive a restart of the daemon, in crates/identity/src/lib.rs.
use omnisec.Prelude.{
  ℕ, ◌≡◌, refl, ap, subst, ◌∙◌, inl, inr, Bool, true, false, ◌||◌, ◌==◌, ==_iff, any, Option, none,
  some, List, [], ◌∷◌, map, if◌then◌else◌, Bool-cases, All,
}
use omnisec.Prelude.Maps.{NatMap, get, get-put, get_absent, keys, Distinct}
use omnisec.Identity.Types.{AgentRuntimeIdentity, AgentIdentityEngine, new_identity_engine}
use omnisec.Identity.Engine.{import_identities, export_identities, get_identity}

-- An identity is filed under its own id.
abbrev pub Filed : NatMap AgentRuntimeIdentity → Type 0
Filed m = All (λ x. x.1.agent_id ≡ x.0) m

settle_if :
    (A : Type 0) (a c : Bool) (r g o : A)
    → (c ≡ true → a ≡ false)
    → (if a then g else if c then r else o) ≡ (if c || a then (if c then r else g) else o)
settle_if A a true r g o h = rw (h refl) refl
settle_if A a false r g o h = refl

import-get :
    (m : NatMap AgentRuntimeIdentity) (e : AgentIdentityEngine)
    → Distinct (keys m)
    → Filed m
    → (q : ℕ)
    → get (import_identities e (map (λ x. x.1) m)).identities q
      ≡ (if any (λ j. j == q) (keys m) then get m q else get e.identities q)
unfolding import_identities any get
import-get [] e d f q = refl
import-get ((k, r) ∷ m) e d f q =
    import-get m _ d.1 f.1 q
    ∙ ap (λ x. if any (λ j. j == q) (keys m) then get m q else x)
        (get-put e.identities r.agent_id q r
          ∙ ap (λ i. if i == q then some r else get e.identities q) f.0)
    ∙ settle_if (Option AgentRuntimeIdentity) (any (λ j. j == q) (keys m)) (k == q) (some r)
        (get m q) (get e.identities q)
        (λ c. subst (λ i. any (λ j. j == i) (keys m) ≡ false) ((==_iff k q).0 c) d.0)

-- The agent that a process belongs to, by the last of the identities.
abbrev pub last_named : List AgentRuntimeIdentity → ℕ → Option ℕ → Option ℕ
last_named [] pid before = before
last_named (r ∷ rs) pid before =
    last_named rs pid (if r.pid == pid then some r.agent_id else before)

import-who :
    (rs : List AgentRuntimeIdentity) (e : AgentIdentityEngine) (pid : ℕ)
    → get (import_identities e rs).pid_map pid ≡ last_named rs pid (get e.pid_map pid)
unfolding import_identities
import-who [] e pid = refl
import-who (r ∷ rs) e pid =
    import-who rs _ pid ∙ ap (last_named rs pid) (get-put e.pid_map r.pid pid r.agent_id)

-- An engine that starts empty and imports what another one exported, where no id stands twice among the
-- identities of the other and each is filed under its own id: every agent has the same identity as before,
-- and a process belongs to the last agent, in the order of the export, whose identity names it, and to none
-- if no identity does.
pub import-export :
    (e : AgentIdentityEngine)
    → Distinct (keys e.identities)
    → Filed e.identities
    → (let w : AgentIdentityEngine = import_identities new_identity_engine (export_identities e) in
        ((id : ℕ) → get_identity w id ≡ get_identity e id)
        × ((pid : ℕ) → get w.pid_map pid ≡ last_named (export_identities e) pid none))
unfolding export_identities get_identity new_identity_engine get
import-export e d f = (
  λ id.
      import-get e.identities new_identity_engine d f id
      ∙ (elim (Bool-cases (any (λ j. j == id) (keys e.identities))) [
        | inl a ↦ rw a refl
        | inr a ↦ rw (a, get_absent e.identities id a) refl
      ]),
  import-who (map (λ x. x.1) e.identities) new_identity_engine,
)
