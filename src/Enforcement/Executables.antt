-- ===== src/Enforcement/Executables.antt =====
-- The verdicts of the process and file engines of crates/enforcement/src/lib.rs, and their logs.
use omnisec.Prelude.{
  ℕ, ◌+◌, String, ◌≡◌, refl, ◌↔◌, inl, inr, true, false, Option, none, some, [], ◌∷◌, arith,
  Bool-cases, length, length-append,
}
use omnisec.Prelude.Texts.{contains}
use omnisec.Prelude.External.{Uuid, DateTime}
use omnisec.Enforcement.Process.{ProcessEngine, flag_process, check_executable, is_known_executable}
use omnisec.Enforcement.FileAccess.{
  FileAccessEngine, is_sensitive, check_file_access, violation_count,
}

module _ (to_lowercase : String → String) (p : ProcessEngine) (pid : ℕ) (agent exe : String)
    (now : DateTime) where
  -- What a launch leads to: the executable is on the block list; or it is on neither list; or it
  -- is known and not blocked, and then the engine does not change. The first two are recorded under
  -- the lower-cased name, and a block wins over a listing as known.
  pub data Verdict : ProcessEngine × Option String → Type 0 where
    blocked :
        contains p.blocked_executables (to_lowercase exe) ≡ true
        → Verdict (flag_process p pid agent (to_lowercase exe) "BLOCK" now, some "BLOCK")
    unknown :
        contains p.blocked_executables (to_lowercase exe) ≡ false
        → is_known_executable to_lowercase p exe ≡ false
        → Verdict (flag_process p pid agent (to_lowercase exe) "FLAG" now, some "FLAG")
    clean :
        contains p.blocked_executables (to_lowercase exe) ≡ false
        → is_known_executable to_lowercase p exe ≡ true
        → Verdict (p, none)

  -- Every launch has its verdict.
  check_executable-Verdict : Verdict (check_executable to_lowercase p pid agent exe now)
  unfolding check_executable is_known_executable
  check_executable-Verdict = elim (Bool-cases (contains p.blocked_executables (to_lowercase exe))) [
    | inl b ↦ rw b (blocked b)
    | inr b ↦ elim (Bool-cases (contains p.known_executables (to_lowercase exe))) [
      | inl k ↦ rw (b, k) (clean b k)
      | inr k ↦ rw (b, k) (unknown b k)
    ]
  ]

  -- The log grows by one entry exactly when there is a verdict to act on, and the lists stay.
  pub check_executable_frame :
      let (p', verdict) = check_executable to_lowercase p pid agent exe now in
      (p'.known_executables ≡ p.known_executables)
      × (p'.blocked_executables ≡ p.blocked_executables)
      × (length p'.flagged_processes
          ≡ length p.flagged_processes + (elim verdict [ none ↦ 0 | some s ↦ 1 ]))
  unfolding check_executable
  check_executable_frame = ground (
    arith,
    length-append p.flagged_processes (
        record {
          pid = pid;
          agent_name = agent;
          executable = to_lowercase exe;
          action = "BLOCK";
          timestamp = now;
        }
        ∷ []),
    length-append p.flagged_processes (
        record {
          pid = pid;
          agent_name = agent;
          executable = to_lowercase exe;
          action = "FLAG";
          timestamp = now;
        }
        ∷ []),
  )

module _ (to_lowercase : String → String) (a : FileAccessEngine) (pid : ℕ) (agent path : String)
    (id : Uuid) (now : DateTime) where
  -- A file access is flagged exactly when a sensitive path is part of its lower-cased path, and
  -- then, and only then, a violation is recorded.
  check_file_access_lem :
      let (a', verdict) = check_file_access to_lowercase a pid agent path id now in
      ((verdict ≡ some "FLAG") ↔ (is_sensitive to_lowercase a path ≡ true))
      × (verdict ≡ none → a' ≡ a)
      × (violation_count a' ≡ violation_count a + (elim verdict [ none ↦ 0 | some s ↦ 1 ]))
  unfolding check_file_access violation_count
  check_file_access_lem = elim (Bool-cases (is_sensitive to_lowercase a path)) [
    | inl e ↦ rw e (((λ h. refl), (λ h. refl)), (λ h. cc), length-append a.violations _)
    | inr e ↦ rw e (((λ h. cc), (λ h. cc)), (λ h. refl), omega arith)
  ]
