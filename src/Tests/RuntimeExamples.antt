-- ===== src/Tests/RuntimeExamples.antt =====
-- Examples for the runtime control layer.
use omnisec.Prelude.{
  ℕ, ◌+◌, ◌≡◌, refl, true, false, none, some, List, [], ◌∷◌, ◌++◌, retain, all, if◌then◌else◌,
  update_first, any, find,
}
use omnisec.Prelude.External.{Uuid, DateTime}
use text.Mathlib.Text.{◌==◌}
use omnisec.Runtime.Types.{native}
use omnisec.Runtime.Recovery.{RecoverableAction, RecoveryEngine, check_expired, auto_recover}
use omnisec.Runtime.Rollback.{is_masked, is_waiting, auto_recover_complete, auto_recover_repeats}
use omnisec.Runtime.Process.{
  ContainmentEngine, sigstop, sigcont, running, quarantined, quarantined_count, contained_count,
  suspend, resume, quarantine,
}
use omnisec.Runtime.Containment.{
  Call, suspending, quarantining, resuming, run, state_in, state_after, run_lem,
}
use omnisec.Runtime.Firewall.{
  has_target, without, expire, FirewallEngine, Host, block_domain, temp_block, unblock,
}
use omnisec.Runtime.Unblocking.{
  rule_for, domain_rule, domain_verified, on_kernel, temp_block_lem, unblock_keeps_drops,
}
use omnisec.Tests.Fixtures.{exact_clock}

abbrev blocked_a : RecoverableAction
blocked_a = record {
  id = 1;
  action_type = "nftables_block_domain";
  target = "a.com";
  expires_at = some 5;
  rollback_action = "unblock";
  rolled_back = false;
  created_at = 0;
}

abbrev recovery : RecoveryEngine
recovery = record {
  recoverable = blocked_a ∷ record blocked_a { id = 2; target = "b.com" } ∷ [];
  mode = native;
}

-- The same domain is blocked again after its first block has been rolled back.
abbrev recovery_again : RecoveryEngine
recovery_again = record {
  recoverable = record blocked_a { rolled_back = true } ∷ record blocked_a { id = 3 } ∷ [];
  mode = native;
}

auto_recover_complete_example : check_expired (auto_recover recovery (λ i. i) 9).0 9 ≡ []
auto_recover_complete_example = auto_recover_complete recovery (λ i. i) 9 ((refl, tt), (tt, tt))

masked : is_masked ("nftables_block_domain", "a.com") recovery_again.recoverable ≡ true
unfolding find
masked = refl

waiting : is_waiting 9 ("nftables_block_domain", "a.com") recovery_again.recoverable ≡ true
unfolding any
waiting = refl

auto_recover_repeats_example :
    is_waiting 9
      ("nftables_block_domain", "a.com")
      (auto_recover recovery_again (λ i. i) 9).0.recoverable
    ≡ true
auto_recover_repeats_example =
    auto_recover_repeats 9 ("nftables_block_domain", "a.com") recovery_again (λ i. i) masked waiting

abbrev containment : ContainmentEngine
containment = record { tracked = []; mode = native }

abbrev calls : List (Call × Uuid × DateTime)
calls =
    (suspending 7 "agent", 1, 10)
    ∷ (resuming 7, 2, 20)
    ∷ (quarantining 7 "agent", 3, 30)
    ∷ (resuming 7, 4, 40)
    ∷ []

run_lem_example :
    ((run containment calls).0.mode ≡ native)
    × ((run containment calls).1 ≡ (7, sigstop) ∷ (7, sigcont) ∷ (7, sigstop) ∷ (7, sigcont) ∷ [])
    × (contained_count (run containment calls).0 ≡ contained_count containment + 2)
    × ((q : ℕ)
        → state_in (run containment calls).0.tracked q
          ≡ state_after q (state_in containment.tracked q) calls)
run_lem_example = run_lem containment calls

-- The quarantine of a process that is held already does not change its state.
quarantine_run : state_after 7 none calls ≡ some running
quarantine_run = refl

-- The second resume finds the entry of the suspension, so the quarantine is still counted.
quarantined_run : quarantined_count (run containment calls).0 ≡ 1
unfolding quarantined_count resume suspend quarantine retain update_first
quarantined_run = refl

abbrev pair : ContainmentEngine
pair = record {
  tracked =
      record {
        pid = 7;
        agent_name = "agent";
        state = quarantined;
        started_at = 0;
        duration_secs = 0;
      }
      ∷ record {
        pid = 8;
        agent_name = "other";
        state = quarantined;
        started_at = 0;
        duration_secs = 0;
      }
      ∷ [];
  mode = native;
}

-- The resolver knows a.com, by two addresses, of which the kernel accepts the first.
abbrev host : Host
host = record {
  resolve = λ s. if s == "a.com" then "1.1.1.1" ∷ "2.2.2.2" ∷ [] else [];
  accepts = λ s. s == "1.1.1.1";
}

abbrev firewall : FirewallEngine
firewall = record { rules = []; mode = native }

-- Not each address was accepted.
verified_run : domain_verified host native "a.com" ≡ false
unfolding all
verified_run = refl

abbrev with_a : FirewallEngine
with_a = record { rules = domain_rule host native "a.com" "old" 1 0 ∷ []; mode = native }

temp_block_lem_example :
    (temp_block host exact_clock with_a "a.com" 5 "risk" 3 4 10).0.rules
    ≡ (elim (rule_for with_a "a.com") [
      | none ↦
          with_a.rules ++ expire 5_000_000_010 (domain_rule host native "a.com" "risk" 4 10) ∷ []
      | some r ↦
          update_first (has_target "a.com") (expire 5_000_000_010) with_a.rules
          ++ domain_rule host native "a.com" "risk" 4 10 ∷ []
    ])
temp_block_lem_example = temp_block_lem host with_a "a.com" "risk" 3 4 10 exact_clock 5

-- The kernel dropped 9.9.9.9 before; of the two addresses of the domain it accepts the first.
unblock_keeps_drops_example :
    (let (blocked, action, commands) = block_domain host with_a "a.com" "risk" 1 2 10 in
      let (lifted, removed, others) = unblock blocked "a.com" 5 10 in
      (lifted.rules ≡ (without with_a "a.com").rules)
      × (rule_for lifted "a.com" ≡ none)
      × (removed.verified ≡ true)
      × (on_kernel host (commands ++ others) ("9.9.9.9" ∷ [])
          ≡ "9.9.9.9" ∷ retain host.accepts (host.resolve "a.com")))
unblock_keeps_drops_example =
    unblock_keeps_drops host with_a "a.com" "risk" 1 5 2 10 ("9.9.9.9" ∷ []) refl

kept_run : retain host.accepts (host.resolve "a.com") ≡ "1.1.1.1" ∷ []
unfolding retain
kept_run = refl
