-- ===== src/Runtime/Unblocking.antt =====
-- Which rules and kernel commands the blocks of crates/runtime/src/network.rs leave.
use mathlib.Core.List.{append_assoc, append-nil}
use text.Mathlib.Text.{◌==◌ as str_eq}
use text.Mathlib.TextPositions.{eq_refl}
use omnisec.Prelude.{
  ℕ, ◌≡◌, refl, ap, sym, ◌∙◌, if◌then◌else◌, inl, inr, String, Bool, true, not, ◌&&◌, Option, none,
  some, List, [], ◌∷◌, ◌++◌, map, arith, is_empty, all, find, find-retain-none, retain,
  update_first, Bool-cases,
}
use omnisec.Prelude.External.{Uuid, DateTime, Chrono}
use omnisec.Runtime.Types.{RuntimeMode, native, simulated, RuntimeAction}
use omnisec.Runtime.Firewall.{
  NftablesRule, FirewallEngine, NftCommand, add_drop, delete_drop, list_chain, Host, first,
  has_target, without, expire, push_rule, all_applied, BlockType, block_domain_in, block_domain,
  unblock_in, unblock, temp_block,
}

abbrev pub rule_for : FirewallEngine → String → Option NftablesRule
rule_for e target = find (has_target target) e.rules

-- The verdict and the commands of a block of a domain, by mode.
abbrev pub domain_verified : Host → RuntimeMode → String → Bool
domain_verified h native target =
    not (is_empty (h.resolve target)) && all h.accepts (h.resolve target)
domain_verified h simulated target = true

abbrev pub domain_commands : Host → RuntimeMode → String → List NftCommand
domain_commands h native target = map add_drop (h.resolve target)
domain_commands h simulated target = []

abbrev pub domain_address : Host → RuntimeMode → String → Option String
domain_address h native target = first (h.resolve target)
domain_address h simulated target = none

-- The rule that a block of a domain adds.
abbrev pub domain_rule : Host → RuntimeMode → String → String → Uuid → DateTime → NftablesRule
domain_rule h mode target reason rule now = record {
  id = rule;
  target = target;
  ip = domain_address h mode target;
  rule_type = BlockType.domain;
  created_at = now;
  expires_at = none;
  reason = reason;
}

either_case :
    {A : Type 0} (x : A) (o : Option A) (xs : List A) (f g : A → List A)
    → ((z : A) → x ∷ f z ≡ g z)
    → x ∷ (elim o [ none ↦ xs | some y ↦ f y ]) ≡ (elim o [ none ↦ x ∷ xs | some y ↦ g y ])
either_case x none xs f g h = refl
either_case x (some y) xs f g h = h y

module _ {A : Type 0} (p : A → Bool) (f : A → A) (y : A) where
  update_first-append :
      p y ≡ true
      → (xs : List A)
      → update_first p f (xs ++ y ∷ [])
        ≡ (elim (find p xs) [ none ↦ xs ++ f y ∷ [] | some x ↦ update_first p f xs ++ y ∷ [] ])
  unfolding update_first find
  update_first-append h [] = rw h refl
  update_first-append h (x ∷ xs) = elim (Bool-cases (p x)) [
    | inl m ↦ rw (m, update_first, find, m) refl
    | inr m ↦
        rw (m, find, update_first-append h xs)
          (either_case x (find p xs) (xs ++ f y ∷ []) (λ z. update_first p f xs ++ y ∷ [])
            (λ z. update_first p f (x ∷ xs) ++ y ∷ []) (λ z. rw m refl))
  ]

module _ (h : Host) (e : FirewallEngine) (target reason : String) (id rule : Uuid)
    (now : DateTime) where
  block_in :
      (mode : RuntimeMode) (action : RuntimeAction)
      → ((block_domain_in h mode e target reason action rule now).0
          ≡ record e { rules = e.rules ++ domain_rule h mode target reason rule now ∷ [] })
        × ((block_domain_in h mode e target reason action rule now).1.verified
            ≡ domain_verified h mode target)
        × ((block_domain_in h mode e target reason action rule now).2
            ≡ domain_commands h mode target)
  unfolding block_domain_in push_rule all_applied
  block_in native action = (refl, refl, refl)
  block_in simulated action = (refl, refl, refl)

  -- A block of a domain adds one rule, without expiry, at the end; in native mode it runs one command
  -- for each address that the domain resolves to, and is verified exactly if there is an address and
  -- each command is accepted. In simulated mode it runs nothing and counts as verified.
  pub block_domain_lem :
      ((block_domain h e target reason id rule now).0
        ≡ record e { rules = e.rules ++ domain_rule h e.mode target reason rule now ∷ [] })
      × ((block_domain h e target reason id rule now).1.verified ≡ domain_verified h e.mode target)
      × ((block_domain h e target reason id rule now).2 ≡ domain_commands h e.mode target)
  unfolding block_domain
  block_domain_lem = block_in e.mode _

  -- A temporary block of a domain that has no rule yet adds a rule that expires. If it has a rule
  -- already, its first rule is made to expire and the new rule is not.
  pub temp_block_lem :
      (c : Chrono) (duration_secs : ℕ)
      → (temp_block h c e target duration_secs reason id rule now).0.rules
        ≡ (elim (rule_for e target) [
          | none ↦
              e.rules
              ++ expire (c.after now duration_secs) (domain_rule h e.mode target reason rule now)
                ∷ []
          | some r ↦
              update_first (has_target target) (expire (c.after now duration_secs)) e.rules
              ++ domain_rule h e.mode target reason rule now ∷ []
        ])
  unfolding temp_block
  temp_block_lem c duration_secs =
      ap (λ x. update_first (has_target target) (expire (c.after now duration_secs)) x.rules)
        block_domain_lem.0
      ∙ update_first-append (has_target target) (expire (c.after now duration_secs))
          (domain_rule h e.mode target reason rule now) (eq_refl target) e.rules

-- What the kernel drops after commands, in the order in which the rules were added: a rule is added where the
-- host accepts the command for its address, and a deletion takes all rules of an address away.
abbrev pub on_kernel : Host → List NftCommand → List String → List String
on_kernel h [] dropped = dropped
on_kernel h (add_drop address ∷ cs) dropped =
    on_kernel h cs (if h.accepts address then dropped ++ address ∷ [] else dropped)
on_kernel h (delete_drop address ∷ cs) dropped =
    on_kernel h cs (retain (λ a. not (str_eq a address)) dropped)
on_kernel h (list_chain ∷ cs) dropped = on_kernel h cs dropped

on_kernel-map :
    (h : Host) (xs dropped : List String)
    → on_kernel h (map add_drop xs ++ list_chain ∷ []) dropped ≡ dropped ++ retain h.accepts xs
unfolding retain
on_kernel-map h [] dropped = sym (append-nil dropped)
on_kernel-map h (x ∷ xs) dropped = elim (Bool-cases (h.accepts x)) [
  | inl m ↦
      ap
        (λ c.
          on_kernel h (map add_drop xs ++ list_chain ∷ [])
            (if c then dropped ++ x ∷ [] else dropped))
        m
      ∙ on_kernel-map h xs (dropped ++ x ∷ [])
      ∙ append_assoc dropped (x ∷ []) (retain h.accepts xs)
      ∙ ap (λ c. dropped ++ (if c then x ∷ retain h.accepts xs else retain h.accepts xs)) (sym m)
  | inr m ↦
      ap
        (λ c.
          on_kernel h (map add_drop xs ++ list_chain ∷ [])
            (if c then dropped ++ x ∷ [] else dropped))
        m
      ∙ on_kernel-map h xs dropped
      ∙ ap (λ c. dropped ++ (if c then x ∷ retain h.accepts xs else retain h.accepts xs)) (sym m)
]

unblock_native :
    (e : FirewallEngine) (target : String) (id : Uuid) (now : DateTime)
    → e.mode ≡ native
    → ((unblock e target id now).0 ≡ without e target)
      × ((unblock e target id now).1.verified ≡ true)
      × ((unblock e target id now).2 ≡ list_chain ∷ [])
unfolding unblock unblock_in
unblock_native e target id now m = rw m (refl, refl, refl)

domain_commands_native :
    (h : Host) (mode : RuntimeMode) (target : String)
    → mode ≡ native
    → domain_commands h mode target ≡ map add_drop (h.resolve target)
domain_commands_native h mode target m = rw m refl

retain-push :
    (target : String) (r : NftablesRule) (xs : List NftablesRule)
    → has_target target r ≡ true
    → retain (λ s. not (has_target target s)) (xs ++ r ∷ [])
      ≡ retain (λ s. not (has_target target s)) xs
unfolding retain
retain-push target r [] h = rw h refl
retain-push target r (x ∷ xs) h = ground (arith, retain-push target r xs h)

-- In native mode a block of a domain and then `unblock` leave no rule of the domain in the registry and the
-- rules of the others as they were, and the answer is verified. But what the kernel drops afterwards is what it
-- dropped before with each address added that the domain resolves to and for which the rule was accepted.
pub unblock_keeps_drops :
    (h : Host) (e : FirewallEngine) (target reason : String) (id id' rule : Uuid) (now : DateTime)
    (dropped : List String)
    → e.mode ≡ native
    → (let (blocked, action, commands) = block_domain h e target reason id rule now in
        let (lifted, removed, others) = unblock blocked target id' now in
        (lifted.rules ≡ (without e target).rules)
        × (rule_for lifted target ≡ none)
        × (removed.verified ≡ true)
        × (on_kernel h (commands ++ others) dropped
            ≡ dropped ++ retain h.accepts (h.resolve target)))
unblock_keeps_drops h e target reason id id' rule now dropped m =
    let (block, ok, commands) = block_domain_lem h e target reason id rule now in
    let blocked = (block_domain h e target reason id rule now).0 in
    let (lift, verified, others) =
      unblock_native blocked target id' now (ap (λ x. x.mode) block ∙ m) in
    (
      ap (λ x. x.rules) lift
          ∙ ap (λ x. (without x target).rules) block
          ∙ retain-push target (domain_rule h e.mode target reason rule now) e.rules
              (eq_refl target),
      ap (λ x. rule_for x target) lift ∙ find-retain-none (has_target target) blocked.rules,
      verified,
      ap (λ cs. on_kernel h cs dropped)
            (ap (λ l. l ++ (unblock blocked target id' now).2)
                (commands ∙ domain_commands_native h e.mode target m)
              ∙ ap (λ l. map add_drop (h.resolve target) ++ l) others)
          ∙ on_kernel-map h (h.resolve target) dropped,
    )
