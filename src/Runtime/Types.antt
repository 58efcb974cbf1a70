-- ===== src/Runtime/Types.antt =====
-- `RuntimeMode` and `RuntimeAction` of crates/runtime/src/lib.rs.
use omnisec.Prelude.{ℕ, String, Bool}
use omnisec.Prelude.External.{Uuid, DateTime}

pub data RuntimeMode : Type 0 where
  native simulated : RuntimeMode

pub record RuntimeAction : Type 0 where
  pub id : Uuid
  pub action_type : String
  pub target : String
  pub kernel_command : String
  pub result : String
  pub duration_ms : ℕ
  pub timestamp : DateTime
  pub verified : Bool
  pub rolled_back : Bool
