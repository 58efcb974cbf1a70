-- ===== src/Decision/Policies.antt =====
-- `add_policy` and `get_policy` of crates/decision/src/lib.rs: one policy to a name, and its
-- versions.
use mathlib.Core.Bool.{false≢true}
use text.Mathlib.Text.{◌==◌ as str_eq}
use text.Mathlib.TextEquality.{eq_iff}
use text.Mathlib.TextPositions.{eq_refl}
use omnisec.Prelude.{
  ◌+◌, ◌%◌, String, ◌≡◌, refl, sym, ◌∙◌, ◌≢◌, inl, inr, Bool, true, false, not, none, some, List,
  [], ◌∷◌, ◌++◌, arith, if◌then◌else◌, All, All-append, All-imp, find, find-append,
  find-append_none, find-retain-none, retain, retain_none, All-retain, All-retain_of, find-retain,
  Bool-cases, Option-cases,
}
use omnisec.Decision.Types.{VersionedPolicy, DecisionEngine}
use omnisec.Decision.Engine.{named, u32_mod, add_policy, latest, get_policy}

-- No two policies of the list have the same name.
abbrev pub UniqueNames : List VersionedPolicy → Type 0
UniqueNames [] = Unit
UniqueNames (p ∷ ps) = All (λ q. named p.name q ≡ false) ps × UniqueNames ps

named_sym : (p q : VersionedPolicy) → named p.name q ≡ false → named q.name p ≡ false
named_sym p q h = ground (arith, eq_iff p.name q.name, eq_iff q.name p.name)

named_trans :
    (p q : VersionedPolicy) (name : String)
    → named name p ≡ true
    → named p.name q ≡ false
    → named name q ≡ false
named_trans p q name h k =
    ground (arith, eq_iff p.name name, eq_iff q.name name, eq_iff q.name p.name)

retain-UniqueNames :
    (keep : VersionedPolicy → Bool) (ps : List VersionedPolicy)
    → UniqueNames ps
    → UniqueNames (retain keep ps)
unfolding retain
retain-UniqueNames keep [] u = tt
retain-UniqueNames keep (p ∷ ps) u = elim (Bool-cases (keep p)) [
  | inl e ↦ rw e (All-retain_of keep _ ps u.0, retain-UniqueNames keep ps u.1)
  | inr e ↦ rw e (retain-UniqueNames keep ps u.1)
]

snoc-UniqueNames :
    (ps : List VersionedPolicy) (p : VersionedPolicy)
    → All (λ q. named p.name q ≡ false) ps
    → UniqueNames ps
    → UniqueNames (ps ++ p ∷ [])
snoc-UniqueNames [] p h u = (tt, tt)
snoc-UniqueNames (q ∷ ps) p h u =
    (All-append _ ps (p ∷ []) u.0 (named_sym p q h.0, tt), snoc-UniqueNames ps p h.1 u.1)

-- With unique names the search by the greatest version is the search by name.
latest-find :
    (name : String) (ps : List VersionedPolicy)
    → UniqueNames ps
    → latest none (retain (named name) ps) ≡ find (named name) ps
unfolding latest retain find
latest-find name [] u = refl
latest-find name (p ∷ ps) u = elim (Bool-cases (named name p)) [
  | inl e ↦ rw (e, retain_none (named name) ps (All-imp (λ q. named_trans p q name e) ps u.0))
  | inr e ↦ rw e (latest-find name ps u.1)
]

find-none-All :
    (name : String) (ps : List VersionedPolicy)
    → find (named name) ps ≡ none
    → All (λ q. named name q ≡ false) ps
unfolding find
find-none-All name [] h = tt
find-none-All name (p ∷ ps) h = elim (Bool-cases (named name p)) [
  | inl e ↦ absurd (ground arith)
  | inr e ↦ (e, find-none-All name ps (ground arith))
]

not_others :
    (name : String) (ps : List VersionedPolicy)
    → All (λ q. named name q ≡ false) (retain (λ q. not (named name q)) ps)
not_others name ps =
    All-imp (λ q h. ground arith) (retain (λ q. not (named name q)) ps)
      (All-retain (λ q. not (named name q)) ps)

-- The policy that `add_policy` stores: the version is one more than that of the policy which it
-- replaces.
pub stored : DecisionEngine → VersionedPolicy → VersionedPolicy
stored e p = elim (find (named p.name) e.policies) [
  | none ↦ p
  | some old ↦ record p { version = (old.version + 1) % u32_mod }
]

module _ (e : DecisionEngine) (p : VersionedPolicy) where
  add_policy_new :
      find (named p.name) e.policies ≡ none → (add_policy e p).policies ≡ e.policies ++ p ∷ []
  unfolding add_policy
  add_policy_new h = rw (h, add_policy)

  add_policy_replace :
      (old : VersionedPolicy)
      → find (named p.name) e.policies ≡ some old
      → (add_policy e p).policies
        ≡ retain (λ q. not (named p.name q)) e.policies
          ++ record p { version = (old.version + 1) % u32_mod } ∷ []
  unfolding add_policy
  add_policy_replace old h = rw (h, add_policy)

  -- Policies are added without a name ever standing twice.
  add_policy-UniqueNames : UniqueNames e.policies → UniqueNames (add_policy e p).policies
  add_policy-UniqueNames u = elim (Option-cases (find (named p.name) e.policies)) [
    | inl lost ↦
        rw (add_policy_new lost)
          (snoc-UniqueNames e.policies p (find-none-All p.name e.policies lost) u)
    | inr (old, found) ↦ rw (add_policy_replace old found) (
        snoc-UniqueNames (retain (λ q. not (named p.name q)) e.policies)
          (record p { version = (old.version + 1) % u32_mod }) (not_others p.name e.policies)
          (retain-UniqueNames (λ q. not (named p.name q)) e.policies u))
  ]

  stored_new : find (named p.name) e.policies ≡ none → stored e p ≡ p
  unfolding stored
  stored_new h = rw (h, stored)

  stored_replace :
      (old : VersionedPolicy)
      → find (named p.name) e.policies ≡ some old
      → stored e p ≡ record p { version = (old.version + 1) % u32_mod }
  unfolding stored
  stored_replace old h = rw (h, stored)

  differs : (name : String) → p.name ≢ name → named name p ≡ false
  differs name other = ground (arith, eq_iff p.name name)

  keeps :
      (name : String)
      → p.name ≢ name
      → (q : VersionedPolicy) → named name q ≡ true
      → not (named p.name q) ≡ true
  keeps name other q h = ground (arith, eq_iff q.name name, eq_iff q.name p.name)

  find-add_policy_self : find (named p.name) (add_policy e p).policies ≡ some (stored e p)
  unfolding find
  find-add_policy_self = elim (Option-cases (find (named p.name) e.policies)) [
    | inl lost ↦ rw (
      add_policy_new lost,
      find-append (named p.name) e.policies (p ∷ []),
      lost,
      eq_refl p.name,
      stored_new lost,
    )
    | inr (old, found) ↦ rw (
      add_policy_replace old found,
      find-append (named p.name) (retain (λ q. not (named p.name q)) e.policies)
          (record p { version = (old.version + 1) % u32_mod } ∷ []),
      find-retain-none (named p.name) e.policies,
      eq_refl p.name,
      stored_replace old found,
    )
  ]

  find-add_policy_other :
      (name : String)
      → p.name ≢ name
      → find (named name) (add_policy e p).policies ≡ find (named name) e.policies
  unfolding find
  find-add_policy_other name other = elim (Option-cases (find (named p.name) e.policies)) [
    | inl lost ↦
        rw (add_policy_new lost)
          (find-append_none (named name) e.policies (p ∷ []) (rw (differs name other)))
    | inr (old, found) ↦ rw (add_policy_replace old found) (
        find-append_none (named name) (retain (λ q. not (named p.name q)) e.policies)
          (record p { version = (old.version + 1) % u32_mod } ∷ []) (rw (differs name other))
        ∙ find-retain (λ q. not (named p.name q)) (named name) e.policies (keeps name other))
  ]

  get_policy-find :
      (e' : DecisionEngine) (name : String)
      → UniqueNames e'.policies
      → get_policy e' name ≡ find (named name) e'.policies
  unfolding get_policy
  get_policy-find e' name u = latest-find name e'.policies u

  -- After `add_policy` the name of the policy stands for it, with a version one above that of the
  -- policy that had the name, if one had; and every other name stands for what it stood for.
  get_policy-add_policy :
      (name : String)
      → UniqueNames e.policies
      → get_policy (add_policy e p) name ≡ (
          if str_eq p.name name
          then some (elim (get_policy e p.name) [
            | none ↦ p
            | some old ↦ record p { version = (old.version + 1) % u32_mod }
          ])
          else get_policy e name)
  unfolding stored
  get_policy-add_policy name u = elim (Bool-cases (str_eq p.name name)) [
    | inl same ↦ rw (
      ← (eq_iff p.name name).0 same,
      eq_refl p.name,
      get_policy-find (add_policy e p) p.name (add_policy-UniqueNames u),
      get_policy-find e p.name u,
      find-add_policy_self,
    )
    | inr other ↦ rw (
      other,
      get_policy-find (add_policy e p) name (add_policy-UniqueNames u),
      get_policy-find e name u,
      find-add_policy_other name (λ same. false≢true (sym other ∙ (eq_iff p.name name).1 same)),
    )
  ]
