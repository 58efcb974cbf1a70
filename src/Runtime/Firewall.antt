-- ===== src/Runtime/Firewall.antt =====
-- `NetworkBlockEngine` of crates/runtime/src/network.rs; the mode is that of the build. A method also
-- returns the `nft` commands that it runs. What `nft` and the resolver answer is a parameter.
use text.Mathlib.Text.{◌==◌ as str_eq}
use omnisec.Prelude.{
  ℕ, String, Bool, true, false, not, ◌&&◌, Option, none, some, List, [], ◌∷◌, ◌++◌, map,
  if◌then◌else◌, is_empty, length, all, retain, update_first,
}
use omnisec.Prelude.Texts.{concat}
use omnisec.Prelude.External.{Uuid, DateTime, Chrono}
use omnisec.Runtime.Types.{RuntimeMode, native, simulated, RuntimeAction}

pub data BlockType : Type 0 where
  domain ip cidr : BlockType

pub record NftablesRule : Type 0 where
  pub id : Uuid
  pub target : String
  pub ip : Option String
  pub rule_type : BlockType
  pub created_at : DateTime
  pub expires_at : Option DateTime
  pub reason : String

pub record FirewallEngine : Type 0 where
  pub rules : List NftablesRule
  pub mode : RuntimeMode

-- The commands: a rule that drops what goes to an address or a range, the deletion of such a rule,
-- which the comment in `unblock` names, and the listing of the chain.
pub data NftCommand : Type 0 where
  add_drop delete_drop : String → NftCommand
  list_chain : NftCommand

-- What the host answers: the addresses of a domain, and whether the command for an address runs
-- and succeeds.
pub record Host : Type 0 where
  pub resolve : String → List String
  pub accepts : String → Bool

abbrev pub Step : Type 0
Step = FirewallEngine × RuntimeAction × List NftCommand

unfoldable pub create_action : String → String → Uuid → DateTime → RuntimeAction
create_action action_type target id now = record {
  id = id;
  action_type = action_type;
  target = target;
  kernel_command = concat ("nft add rule inet omnisec omnisec-block ... " ∷ target ∷ []);
  result = "Pending";
  duration_ms = 0;
  timestamp = now;
  verified = false;
  rolled_back = false;
}

abbrev pub first : List String → Option String
first [] = none
first (s ∷ ss) = some s

unfoldable pub push_rule :
    FirewallEngine → Uuid → String → Option String → BlockType → String → DateTime → FirewallEngine
push_rule e id target address kind reason now = record e {
  rules =
      e.rules
      ++ record {
        id = id;
        target = target;
        ip = address;
        rule_type = kind;
        created_at = now;
        expires_at = none;
        reason = reason;
      }
        ∷ [];
}

abbrev pub finish : RuntimeAction → String → Bool → RuntimeAction
finish action result verified = record action { result = result; verified = verified }

module _ (h : Host) where
  -- `!ips.is_empty()`, and then the loop over them
  unfoldable pub all_applied : List String → Bool
  all_applied ips = not (is_empty ips) && all h.accepts ips

  -- The `match` on the mode; the rule has the id `rule`.
  unfoldable pub block_domain_in :
      RuntimeMode → FirewallEngine → String → String → RuntimeAction → Uuid → DateTime → Step
  unfolding push_rule all_applied
  block_domain_in native e target reason action rule now =
      let ips = h.resolve target in
      let ok = all_applied ips in
      (
        push_rule e rule target (first ips) domain reason now,
        finish action (if ok then "Applied" else "PartialFail") ok,
        map add_drop ips,
      )
  block_domain_in simulated e target reason action rule now =
      (push_rule e rule target none domain reason now, finish action "Simulated" true, [])

  unfoldable pub block_domain : FirewallEngine → String → String → Uuid → Uuid → DateTime → Step
  unfolding block_domain_in create_action
  block_domain e target reason id rule now =
      block_domain_in e.mode e target reason (create_action "nftables_block_domain" target id now)
        rule now

  unfoldable pub block_ip_in :
      RuntimeMode → FirewallEngine → String → String → RuntimeAction → Uuid → DateTime → Step
  unfolding push_rule
  block_ip_in native e target reason action rule now =
      let verified = h.accepts target in
      (
        push_rule e rule target (some target) ip reason now,
        finish action (if verified then "Applied" else "Failed") verified,
        add_drop target ∷ [],
      )
  block_ip_in simulated e target reason action rule now =
      (push_rule e rule target (some target) ip reason now, finish action "Simulated" true, [])

  unfoldable pub block_ip : FirewallEngine → String → String → Uuid → Uuid → DateTime → Step
  unfolding block_ip_in create_action
  block_ip e target reason id rule now =
      block_ip_in e.mode e target reason (create_action "nftables_block_ip" target id now) rule now

-- The answer of the command for a range is not looked at.
unfoldable pub block_cidr_in :
    RuntimeMode → FirewallEngine → String → String → RuntimeAction → Uuid → DateTime → Step
unfolding push_rule
block_cidr_in native e target reason action rule now = (
  push_rule e rule target none cidr reason now,
  finish action "Applied" true,
  add_drop target ∷ [],
)
block_cidr_in simulated e target reason action rule now =
    (push_rule e rule target none cidr reason now, finish action "Simulated" true, [])

unfoldable pub block_cidr : FirewallEngine → String → String → Uuid → Uuid → DateTime → Step
unfolding block_cidr_in create_action
block_cidr e target reason id rule now =
    block_cidr_in e.mode e target reason (create_action "nftables_block_cidr" target id now) rule
      now

abbrev pub has_target : String → NftablesRule → Bool
has_target target r = str_eq r.target target

abbrev pub without : FirewallEngine → String → FirewallEngine
without e target = record e { rules = retain (λ r. not (has_target target r)) e.rules }

unfoldable pub unblock_in : RuntimeMode → FirewallEngine → String → RuntimeAction → Step
unblock_in native e target action =
    (without e target, finish action "Removed" true, list_chain ∷ [])
unblock_in simulated e target action = (without e target, finish action "Simulated" true, [])

unfoldable pub unblock : FirewallEngine → String → Uuid → DateTime → Step
unfolding unblock_in create_action
unblock e target id now =
    unblock_in e.mode e target (create_action "nftables_unblock" target id now)

abbrev pub expire : DateTime → NftablesRule → NftablesRule
expire at r = record r { expires_at = some at }

module _ (h : Host) (c : Chrono) where
  unfoldable pub temp_block : FirewallEngine → String → ℕ → String → Uuid → Uuid → DateTime → Step
  temp_block e target duration_secs reason id rule now =
      let (e', action, commands) = block_domain h e target reason id rule now in
      (
        record e' {
          rules = update_first (has_target target) (expire (c.after now duration_secs)) e'.rules;
        },
        record action { action_type = "nftables_temp_block" },
        commands,
      )

unfoldable pub active_rule_count : FirewallEngine → ℕ
active_rule_count e = length e.rules
