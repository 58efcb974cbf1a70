-- ===== src/Runtime/Rollback.antt =====
-- What `auto_recover` of crates/runtime/src/recovery.rs rolls back.
use text.Mathlib.Text.{◌==◌ as str_eq}
use text.Mathlib.TextEquality.{eq_iff}
use text.Mathlib.TextPositions.{eq_refl}
use omnisec.Prelude.{
  ℕ, ◌+◌, ◌≡◌, refl, sym, subst, ◌∙◌, inl, inr, Bool, true, false, ◌&&◌, none, some, List, [], ◌∷◌,
  map, arith, All, All-imp, All-both, any, find, retain, retain_none, update_first, Bool-cases,
}
use omnisec.Prelude.External.{Uuid, DateTime}
use omnisec.Runtime.Recovery.{
  RecoverableAction, RecoveryEngine, has_expired, check_expired, Key, key_of, has_key, mark,
  recover_all, auto_recover,
}

-- No two actions have the same type and target.
abbrev pub UniqueKeys : List RecoverableAction → Type 0
UniqueKeys [] = Unit
UniqueKeys (a ∷ xs) = All (λ b. has_key (key_of a) b ≡ false) xs × UniqueKeys xs

-- Every expired action has its key among those left to roll back.
abbrev Scheduled : DateTime → List Key → List RecoverableAction → Type 0
Scheduled now ks = All (λ a. has_expired now a ≡ true → any (λ k. has_key k a) ks ≡ true)

has_key_other :
    (k : Key) (a b : RecoverableAction)
    → has_key k a ≡ true
    → has_key (key_of a) b ≡ false
    → has_key k b ≡ false
has_key_other k a b h o = ground (
  arith,
  eq_iff a.action_type k.0,
  eq_iff a.target k.1,
  eq_iff b.action_type k.0,
  eq_iff b.target k.1,
  eq_iff b.action_type a.action_type,
  eq_iff b.target a.target,
)

module _ (now : DateTime) (k : Key) where
  drop_key :
      (ks : List Key) (a : RecoverableAction)
      → has_key k a ≡ false
      → (has_expired now a ≡ true → any (λ j. has_key j a) (k ∷ ks) ≡ true)
      → has_expired now a ≡ true
      → any (λ j. has_key j a) ks ≡ true
  unfolding any
  drop_key ks a other s h = ground (arith, s h)

  update-Scheduled :
      (ks : List Key) (xs : List RecoverableAction)
      → UniqueKeys xs
      → Scheduled now (k ∷ ks) xs
      → Scheduled now ks (update_first (has_key k) mark xs)
  unfolding update_first
  update-Scheduled ks [] u s = tt
  update-Scheduled ks (a ∷ xs) u s = elim (Bool-cases (has_key k a)) [
    | inl e ↦
        rw e ((λ h. cc), All-both (λ b o t. drop_key ks b (has_key_other k a b e o) t) xs u.0 s.1)
    | inr e ↦ rw e (drop_key ks a e s.0, update-Scheduled ks xs u.1 s.1)
  ]

  update-others :
      (a : RecoverableAction) (xs : List RecoverableAction)
      → All (λ b. has_key (key_of a) b ≡ false) xs
      → All (λ b. has_key (key_of a) b ≡ false) (update_first (has_key k) mark xs)
  unfolding update_first
  update-others a [] h = tt
  update-others a (b ∷ xs) h = elim (Bool-cases (has_key k b)) [
    | inl e ↦ rw e h
    | inr e ↦ rw e (h.0, update-others a xs h.1)
  ]

  update-UniqueKeys :
      (xs : List RecoverableAction) → UniqueKeys xs → UniqueKeys (update_first (has_key k) mark xs)
  unfolding update_first
  update-UniqueKeys [] u = tt
  update-UniqueKeys (a ∷ xs) u = elim (Bool-cases (has_key k a)) [
    | inl e ↦ rw e (u.0, u.1)
    | inr e ↦ rw e (update-others a xs u.0, update-UniqueKeys xs u.1)
  ]

recover_all-Scheduled :
    (ids : ℕ → Uuid) (now : DateTime) (i : ℕ) (xs : List RecoverableAction) (ks : List Key)
    → UniqueKeys xs
    → Scheduled now ks xs
    → Scheduled now [] (recover_all ids now i xs ks).0
unfolding recover_all
recover_all-Scheduled ids now i xs [] u s = s
recover_all-Scheduled ids now i xs (k ∷ ks) u s =
    recover_all-Scheduled ids now (i + 1) (update_first (has_key k) mark xs) ks
      (update-UniqueKeys now k xs u) (update-Scheduled now k ks xs u s)

never : (b : Bool) → (b ≡ true → false ≡ true) → b ≡ false
never true h = sym (h refl)
never false h = refl

all-Scheduled :
    (now : DateTime) (xs : List RecoverableAction)
    → Scheduled now (map key_of (retain (has_expired now) xs)) xs
unfolding retain any
all-Scheduled now [] = tt
all-Scheduled now (a ∷ xs) = elim (Bool-cases (has_expired now a)) [
  | inl e ↦
      let kept : retain (has_expired now) (a ∷ xs) ≡ a ∷ retain (has_expired now) xs =
        ground arith in
      subst (λ l. Scheduled now (map key_of l) (a ∷ xs)) (sym kept)
        (
          (λ h. ground (arith, eq_refl a.action_type, eq_refl a.target)),
          All-imp (λ b s h. ground (arith, s h)) xs (all-Scheduled now xs),
        )
  | inr e ↦
      let kept : retain (has_expired now) (a ∷ xs) ≡ retain (has_expired now) xs = ground arith in
      subst (λ l. Scheduled now (map key_of l) (a ∷ xs)) (sym kept)
        ((λ h. cc), all-Scheduled now xs)
]

-- Where no two actions have the same type and target, no expired action is left to roll back after
-- `auto_recover`.
pub auto_recover_complete :
    (e : RecoveryEngine) (ids : ℕ → Uuid) (now : DateTime)
    → UniqueKeys e.recoverable
    → check_expired (auto_recover e ids now).0 now ≡ []
unfolding check_expired auto_recover any
auto_recover_complete e ids now u =
    let left = (recover_all ids now 0 e.recoverable (map key_of (check_expired e now))).0 in
    retain_none (has_expired now) left (
      All-imp (λ a s. never (has_expired now a) s) left
        (recover_all-Scheduled ids now 0 e.recoverable (map key_of (check_expired e now)) u
          (all-Scheduled now e.recoverable)))

-- The first action with the key has been rolled back already.
abbrev pub is_masked : Key → List RecoverableAction → Bool
is_masked k xs = elim (find (has_key k) xs) [ none ↦ false | some a ↦ a.rolled_back ]

-- An action with the key has expired and has not been rolled back.
abbrev pub is_waiting : DateTime → Key → List RecoverableAction → Bool
is_waiting now k = any (λ a. has_key k a && has_expired now a)

abbrev key_eq : Key → Key → Bool
key_eq j k = str_eq j.0 k.0 && str_eq j.1 k.1

key_path : (j k : Key) → key_eq j k ≡ true → j ≡ k
key_path j k h = ground (arith, eq_iff j.0 k.0, eq_iff j.1 k.1)

module _ (now : DateTime) (k : Key) where
  mark_masked :
      (xs : List RecoverableAction) → is_masked k xs ≡ true → update_first (has_key k) mark xs ≡ xs
  unfolding update_first find
  mark_masked [] h = refl
  mark_masked (a ∷ xs) h = elim (Bool-cases (has_key k a)) [
    | inl e ↦ ground arith
    | inr e ↦ ground (arith, mark_masked xs)
  ]

  not_both :
      (j : Key) (a : RecoverableAction)
      → key_eq j k ≡ false
      → has_key j a ≡ true
      → has_key k a ≡ false
  not_both j a o h = ground (
    arith,
    eq_iff j.0 k.0,
    eq_iff j.1 k.1,
    eq_iff a.action_type j.0,
    eq_iff a.target j.1,
    eq_iff a.action_type k.0,
    eq_iff a.target k.1,
  )

  find-update_other :
      (j : Key) (xs : List RecoverableAction)
      → key_eq j k ≡ false
      → find (has_key k) (update_first (has_key j) mark xs) ≡ find (has_key k) xs
  unfolding update_first find
  find-update_other j [] o = refl
  find-update_other j (a ∷ xs) o = elim (Bool-cases (has_key j a)) [
    | inl e ↦ rw (e, not_both j a o e)
    | inr e ↦ rw (e, find-update_other j xs o)
  ]

  is_waiting-update_other :
      (j : Key) (xs : List RecoverableAction)
      → key_eq j k ≡ false
      → is_waiting now k (update_first (has_key j) mark xs) ≡ is_waiting now k xs
  unfolding update_first any
  is_waiting-update_other j [] o = refl
  is_waiting-update_other j (a ∷ xs) o = elim (Bool-cases (has_key j a)) [
    | inl e ↦ rw (e, not_both j a o e)
    | inr e ↦ rw (e, is_waiting-update_other j xs o)
  ]

  recover_all_waiting :
      (ids : ℕ → Uuid) (i : ℕ) (xs : List RecoverableAction) (ks : List Key)
      → is_masked k xs ≡ true
      → is_waiting now k (recover_all ids now i xs ks).0 ≡ is_waiting now k xs
  unfolding recover_all
  recover_all_waiting ids i xs [] m = refl
  recover_all_waiting ids i xs (j ∷ ks) m = elim (Bool-cases (key_eq j k)) [
    | inl e ↦ rw (key_path j k e, mark_masked xs m) (recover_all_waiting ids (i + 1) xs ks m)
    | inr e ↦
        recover_all_waiting ids (i + 1) (update_first (has_key j) mark xs) ks
          (rw (is_masked, find-update_other j xs e) m)
        ∙ is_waiting-update_other j xs e
  ]

  -- If the first action of a type and target has been rolled back already, `auto_recover` does not
  -- mark a later one of the same type and target that expires: it is left to be rolled back again
  -- each time.
  pub auto_recover_repeats :
      (e : RecoveryEngine) (ids : ℕ → Uuid)
      → is_masked k e.recoverable ≡ true
      → is_waiting now k e.recoverable ≡ true
      → is_waiting now k (auto_recover e ids now).0.recoverable ≡ true
  unfolding auto_recover
  auto_recover_repeats e ids m w =
      recover_all_waiting ids 0 e.recoverable (map key_of (check_expired e now)) m ∙ w
