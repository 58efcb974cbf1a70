-- ===== src/Runtime/Trail.antt =====
-- What the audit trail of crates/runtime/src/audit.rs tells after entries are recorded and marked.
use omnisec.Prelude.{
  ℕ, ◌+◌, ◌≡◌, refl, inl, inr, false, none, some, List, [], ◌∷◌, arith, if◌then◌else◌, any, find,
  length, length-update_first, retain, update_first, Bool-cases,
}
use omnisec.Prelude.External.{Uuid, DateTime}
use omnisec.Runtime.Audit.{
  KernelAuditEntry, KernelAuditTrail, has_id, roll_back, mark_rolled_back, get_verified_entries,
  get_rolled_back_entries, entry_count,
}

-- Whether the first entry of an id has not been rolled back.
abbrev pub first_standing : Uuid → KernelAuditTrail → ℕ
first_standing id t = elim (find (has_id id) t.entries) [
  | none ↦ 0
  | some e ↦ if e.rolled_back then 0 else 1
]

module _ (id : Uuid) (now : DateTime) where
  retain-roll_back :
      (xs : List KernelAuditEntry)
      → length (retain (λ e. e.rolled_back) (update_first (has_id id) (roll_back now) xs))
        ≡ length (retain (λ e. e.rolled_back) xs) + first_standing id (record { entries = xs })
  unfolding retain update_first find
  retain-roll_back [] = refl
  retain-roll_back (e ∷ xs) = elim (Bool-cases (has_id id e)) [
    | inl m ↦ rw m (ground arith)
    | inr m ↦ rw m (ground (arith, retain-roll_back xs))
  ]

  retain-verified :
      (xs : List KernelAuditEntry)
      → length (retain (λ e. e.verified) (update_first (has_id id) (roll_back now) xs))
        ≡ length (retain (λ e. e.verified) xs)
  unfolding retain update_first
  retain-verified [] = refl
  retain-verified (e ∷ xs) = elim (Bool-cases (has_id id e)) [
    | inl m ↦ rw m (ground arith)
    | inr m ↦ rw m (ground (arith, retain-verified xs))
  ]

  absent :
      (xs : List KernelAuditEntry)
      → any (has_id id) xs ≡ false
      → first_standing id (record { entries = xs }) ≡ 0
  unfolding any find
  absent [] h = refl
  absent (e ∷ xs) h = ground (arith, absent xs)

  -- `mark_rolled_back` answers whether an entry has the id, keeps the number of entries and of
  -- verified entries, and makes one rolled-back entry more exactly if the first entry of the id was
  -- not rolled back.
  mark_rolled_back_lem :
      (t : KernelAuditTrail)
      → ((mark_rolled_back t id now).1 ≡ any (has_id id) t.entries)
        × (entry_count (mark_rolled_back t id now).0 ≡ entry_count t)
        × (length (get_verified_entries (mark_rolled_back t id now).0)
            ≡ length (get_verified_entries t))
        × (length (get_rolled_back_entries (mark_rolled_back t id now).0)
            ≡ length (get_rolled_back_entries t) + first_standing id t)
  unfolding mark_rolled_back entry_count get_verified_entries get_rolled_back_entries
  mark_rolled_back_lem t = elim (Bool-cases (any (has_id id) t.entries)) [
    | inl m ↦ rw m (
      refl,
      length-update_first (has_id id) (roll_back now) t.entries,
      retain-verified t.entries,
      retain-roll_back t.entries,
    )
    | inr m ↦ rw m (refl, refl, refl, omega (arith, absent t.entries m))
  ]
