-- ===== src/Enforcement/FileAccess.antt =====
-- `FileAccessEnforcementEngine` of crates/enforcement/src/lib.rs. The user's name, which the code
-- reads from the environment, and `str::to_lowercase` are parameters.
use omnisec.Prelude.{
  ℕ, String, Bool, Option, none, some, List, [], ◌∷◌, ◌++◌, if◌then◌else◌, length, is_empty, any,
}
use omnisec.Prelude.Texts.{concat, has_part}
use omnisec.Prelude.External.{Uuid, DateTime}

pub record FileAccessViolation : Type 0 where
  pub id : Uuid
  pub pid : ℕ
  pub agent_name : String
  pub file_path : String
  pub action : String
  pub timestamp : DateTime

pub record FileAccessEngine : Type 0 where
  pub sensitive_paths : List String
  pub violations : List FileAccessViolation

-- `whoami`: the variable USER if it is set
unfoldable pub whoami : Option String → String
whoami none = "unknown"
whoami (some user) = user

unfoldable pub default_sensitive_paths : Option String → List String
unfolding whoami
default_sensitive_paths user =
    "/etc/passwd"
    ∷ "/etc/shadow"
    ∷ "/etc/sudoers"
    ∷ "/etc/ssh/"
    ∷ "/root/.ssh/"
    ∷ "~/.ssh/"
    ∷ concat ("/home/" ∷ whoami user ∷ "/.ssh/" ∷ [])
    ∷ "/var/log/auth.log"
    ∷ "/var/log/secure"
    ∷ "/var/log/syslog"
    ∷ "/etc/kubernetes/"
    ∷ "/root/.kube/"
    ∷ "credentials"
    ∷ ".env"
    ∷ "token"
    ∷ "secret"
    ∷ "key.pem"
    ∷ "id_rsa"
    ∷ "id_ed25519"
    ∷ []

unfoldable pub new : Option String → FileAccessEngine
unfolding default_sensitive_paths
new user = record { sensitive_paths = default_sensitive_paths user; violations = [] }

unfoldable pub with_lists : Option String → List String → FileAccessEngine
unfolding default_sensitive_paths
with_lists user paths = record {
  sensitive_paths = if is_empty paths then default_sensitive_paths user else paths;
  violations = [];
}

module _ (to_lowercase : String → String) where
  -- A path is lower-cased, and a sensitive path is not.
  unfoldable pub is_sensitive : FileAccessEngine → String → Bool
  is_sensitive a file_path = any (λ sp. has_part (to_lowercase file_path) sp) a.sensitive_paths

  unfoldable pub check_file_access :
      FileAccessEngine → ℕ → String → String → Uuid → DateTime → FileAccessEngine × Option String
  unfolding is_sensitive
  check_file_access a pid agent_name file_path id now =
      if is_sensitive a file_path
      then (
        record a {
          violations =
              a.violations
              ++ record {
                id = id;
                pid = pid;
                agent_name = agent_name;
                file_path = file_path;
                action = "FLAG";
                timestamp = now;
              }
                ∷ [];
        },
        some "FLAG",
      )
      else (a, none)

unfoldable pub violation_count : FileAccessEngine → ℕ
violation_count a = length a.violations
