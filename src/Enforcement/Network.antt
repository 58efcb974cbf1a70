-- ===== src/Enforcement/Network.antt =====
-- `NetworkEnforcementEngine` of crates/enforcement/src/lib.rs.
use text.Mathlib.Text.{◌==◌ as str_eq, is_le}
use Prim.Native.String.{compare}
use omnisec.Prelude.{
  ℕ, String, Bool, not, ◌&&◌, ◌||◌, none, some, List, [], ◌∷◌, ◌++◌, ltb, if◌then◌else◌, length,
  is_empty, any, retain,
}
use omnisec.Prelude.Sort.{sort_by}
use omnisec.Prelude.Texts.{StringSet, contains, insert, remove, collect}
use omnisec.Prelude.External.{Uuid, DateTime, Chrono}
use omnisec.Decision.Types.{
  DecisionAction, allow, flag, block, restart, escalate, EnforcementDecision,
}

pub data EnforcementResult : Type 0 where
  applied failed skipped overridden : EnforcementResult

pub record EnforcementAction : Type 0 where
  pub id : Uuid
  pub decision_id : Uuid
  pub pid : ℕ
  pub agent_name : String
  pub action_type : String
  pub target : String
  pub result : EnforcementResult
  pub duration_ms : ℕ
  pub timestamp : DateTime
  pub details : String

pub record TempBlockEntry : Type 0 where
  pub destination : String
  pub expires_at : DateTime
  pub reason : String

pub record NetworkEngine : Type 0 where
  pub allow_list : StringSet
  pub block_list : StringSet
  pub temp_blocks : List TempBlockEntry
  pub actions : List EnforcementAction

unfoldable pub default_allow_list : StringSet
unfolding collect
default_allow_list = collect (
    "api.openai.com" ∷ "api.anthropic.com" ∷ "api.github.com" ∷ "registry.npmjs.org" ∷ "pypi.org"
    ∷ "files.pythonhosted.org" ∷ "crates.io" ∷ "static.crates.io" ∷ "github.com" ∷ [])

unfoldable pub default_block_list : StringSet
unfolding collect
default_block_list =
    collect ("malware.test.com" ∷ "evil.c2.com" ∷ "phishing.xyz" ∷ "data-exfil.com" ∷ [])

-- A list that the database gave, or the defaults if it gave none.
abbrev pub or_default : List String → StringSet → StringSet
or_default names defaults = if is_empty names then defaults else collect names

unfoldable pub new : NetworkEngine
unfolding default_allow_list default_block_list
new = record {
  allow_list = default_allow_list;
  block_list = default_block_list;
  temp_blocks = [];
  actions = [];
}

unfoldable pub with_lists : List String → List String → NetworkEngine
unfolding default_allow_list default_block_list
with_lists allowed blocked = record {
  allow_list = or_default allowed default_allow_list;
  block_list = or_default blocked default_block_list;
  temp_blocks = [];
  actions = [];
}

unfoldable pub is_allowed : NetworkEngine → String → Bool
is_allowed n destination = contains n.allow_list destination

abbrev pub blocks : String → DateTime → TempBlockEntry → Bool
blocks destination now tb = str_eq tb.destination destination && ltb now tb.expires_at

unfoldable pub is_blocked : NetworkEngine → String → DateTime → Bool
is_blocked n destination now =
    contains n.block_list destination || any (blocks destination now) n.temp_blocks

unfoldable pub add_to_block_list : NetworkEngine → String → NetworkEngine
add_to_block_list n destination = record n { block_list = insert destination n.block_list }

unfoldable pub remove_temp_block : NetworkEngine → String → NetworkEngine
remove_temp_block n destination = record n {
  temp_blocks = retain (λ tb. not (str_eq tb.destination destination)) n.temp_blocks;
}

unfoldable pub remove_from_block_list : NetworkEngine → String → NetworkEngine
remove_from_block_list n destination = record n { block_list = remove destination n.block_list }

unfoldable pub add_to_allow_list : NetworkEngine → String → NetworkEngine
add_to_allow_list n destination = record n { allow_list = insert destination n.allow_list }

-- `Ord` of `String`
abbrev pub text_le : String → String → Bool
text_le s t = is_le (compare s t)

unfoldable pub get_block_list : NetworkEngine → List String
get_block_list n = sort_by text_le n.block_list

unfoldable pub get_allow_list : NetworkEngine → List String
get_allow_list n = sort_by text_le n.allow_list

unfoldable pub action_count : NetworkEngine → ℕ
action_count n = length n.actions

-- `format!("{:?}", action)`
unfoldable pub action_name : DecisionAction → String
action_name allow = "Allow"
action_name flag = "Flag"
action_name block = "Block"
action_name restart = "Restart"
action_name escalate = "Escalate"

-- `decision.context.destination.clone().unwrap_or_default()`
abbrev pub target_of : EnforcementDecision → String
target_of d = elim d.context.destination [ none ↦ "" | some dest ↦ dest ]

module _ (c : Chrono) where
  unfoldable pub add_temp_block : NetworkEngine → String → ℕ → String → DateTime → NetworkEngine
  add_temp_block n destination duration_secs reason now = record n {
    temp_blocks =
        n.temp_blocks
        ++ record {
          destination = destination;
          expires_at = c.after now duration_secs;
          reason = reason;
        }
          ∷ [];
  }

  -- The effect of a decision on the lists, and its result: the `match` of `enforce_network`.
  unfoldable pub apply_action :
      NetworkEngine
      → EnforcementDecision
      → DateTime
      → DecisionAction
      → NetworkEngine × EnforcementResult
  unfolding add_temp_block
  apply_action n d now block =
      let blocked = add_temp_block n (target_of d) 300 d.reason now in
      (record blocked { block_list = insert (target_of d) blocked.block_list }, applied)
  apply_action n d now flag = (n, applied)
  apply_action n d now allow = (n, skipped)
  apply_action n d now restart = (n, applied)
  apply_action n d now escalate = (n, applied)

  unfoldable pub enforce_network :
      NetworkEngine → EnforcementDecision → Uuid → DateTime → NetworkEngine × EnforcementAction
  unfolding apply_action action_name
  enforce_network n d id now =
      let (n', result) = apply_action n d now d.action in
      let action : EnforcementAction = record {
        id = id;
        decision_id = d.id;
        pid = d.pid;
        agent_name = d.agent_name;
        action_type = action_name d.action;
        target = target_of d;
        result = result;
        duration_ms = 0;
        timestamp = now;
        details = d.reason;
      } in
      (record n' { actions = n'.actions ++ action ∷ [] }, action)
