-- ===== src/Enforcement/Blocking.antt =====
-- Which destinations are blocked after each operation of the network engine,
-- crates/enforcement/src/lib.rs.
use text.Mathlib.Text.{◌==◌ as str_eq}
use text.Mathlib.TextEquality.{eq_iff}
use omnisec.Prelude.{
  ℕ, String, ◌≡◌, refl, Bool, true, false, not, ◌&&◌, ◌||◌, List, [], ◌∷◌, ◌≢◌, arith, ltb,
  if◌then◌else◌, any, any-append, retain,
}
use omnisec.Prelude.Texts.{contains, contains-insert, contains-remove, contains-collect}
use omnisec.Prelude.External.{Uuid, DateTime, Chrono}
use omnisec.Decision.Types.{
  DecisionAction, allow, flag, block, restart, escalate, EnforcementDecision,
}
use omnisec.Enforcement.Network.{
  NetworkEngine, TempBlockEntry, new, with_lists, is_allowed, is_blocked, blocks, add_to_block_list,
  remove_temp_block, remove_from_block_list, target_of, add_temp_block, apply_action,
  enforce_network,
}

abbrev pub is_block : DecisionAction → Bool
is_block allow = false
is_block flag = false
is_block block = true
is_block restart = false
is_block escalate = false

module _ (c : Chrono) (n : NetworkEngine) where
  -- A temporary block holds of its destination until it expires, and of no other.
  is_blocked-add_temp_block :
      (dest : String) (secs : ℕ) (reason : String) (now later : DateTime) (x : String)
      → is_blocked (add_temp_block c n dest secs reason now) x later
        ≡ (is_blocked n x later || (str_eq dest x && ltb later (c.after now secs)))
  unfolding is_blocked add_temp_block any
  is_blocked-add_temp_block dest secs reason now later x =
      rw (any-append (blocks x later) n.temp_blocks) (ground arith)

  blocked_by :
      (d : EnforcementDecision) (now later : DateTime) (a : DecisionAction) (x : String)
      → is_blocked (apply_action c n d now a).0 x later
        ≡ (if is_block a && str_eq (target_of d) x then true else is_blocked n x later)
  unfolding apply_action is_blocked any
  blocked_by d now later block x =
      rw
        (
          is_blocked,
          contains-insert n.block_list (target_of d) x,
          any-append (blocks x later) n.temp_blocks,
        )
        (ground arith)
  blocked_by d now later flag x = refl
  blocked_by d now later allow x = refl
  blocked_by d now later restart x = refl
  blocked_by d now later escalate x = refl

  -- After a decision is enforced: a decision to block blocks its target, for good, since no time
  -- lifts it; all else stays blocked or free as it was; and any other decision changes nothing here.
  pub is_blocked-enforce_network :
      (d : EnforcementDecision) (id : Uuid) (now later : DateTime) (x : String)
      → is_blocked (enforce_network c n d id now).0 x later
        ≡ (if is_block d.action && str_eq (target_of d) x then true else is_blocked n x later)
  unfolding enforce_network is_blocked
  is_blocked-enforce_network d id now later x = blocked_by d now later d.action x

any_lifted :
    (dest x : String) (now : DateTime) (bs : List TempBlockEntry)
    → any (blocks x now) (retain (λ tb. not (str_eq tb.destination dest)) bs)
      ≡ (if str_eq dest x then false else any (blocks x now) bs)
unfolding any retain
any_lifted dest x now [] = ground arith
any_lifted dest x now (tb ∷ bs) = ground (
  arith,
  eq_iff tb.destination dest,
  eq_iff tb.destination x,
  eq_iff dest x,
  any_lifted dest x now bs,
)

module _ (n : NetworkEngine) (dest : String) where
  -- To lift a temporary block does not lift a block of the same destination by the block list.
  is_blocked-remove_temp_block :
      (x : String) (now : DateTime)
      → is_blocked (remove_temp_block n dest) x now
        ≡ (if str_eq dest x then contains n.block_list x else is_blocked n x now)
  unfolding is_blocked remove_temp_block
  is_blocked-remove_temp_block x now = ground (arith, any_lifted dest x now n.temp_blocks)

  -- To take a destination off both lists frees it, and no other.
  is_blocked-lifted :
      (x : String) (now : DateTime)
      → is_blocked (remove_from_block_list (remove_temp_block n dest) dest) x now
        ≡ (if str_eq dest x then false else is_blocked n x now)
  unfolding is_blocked remove_temp_block remove_from_block_list
  is_blocked-lifted x now =
      ground (arith, any_lifted dest x now n.temp_blocks, contains-remove n.block_list dest x)

  -- `add_to_block_list` blocks its destination, at every time, and no other.
  pub is_blocked-add_to_block_list :
      (x : String) (now : DateTime)
      → is_blocked (add_to_block_list n dest) x now ≡ (str_eq dest x || is_blocked n x now)
  unfolding is_blocked add_to_block_list
  is_blocked-add_to_block_list x now = ground (arith, contains-insert n.block_list dest x)

-- Lists from the database replace the defaults, unless they are empty.
pub is_allowed-with_lists :
    (allowed blocked : List String) (x : String)
    → (is_allowed (with_lists [] blocked) x ≡ is_allowed new x)
      × (allowed ≢ [] → is_allowed (with_lists allowed blocked) x ≡ any (λ s. str_eq s x) allowed)
unfolding is_allowed with_lists new
is_allowed-with_lists [] blocked x = (refl, (λ h. absurd (h refl)))
is_allowed-with_lists (s ∷ ss) blocked x = (refl, (λ h. contains-collect (s ∷ ss) x))
