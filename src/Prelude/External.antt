-- ===== src/Prelude/External.antt =====
-- What the crates take from packages outside the repository: the clock of `chrono`, whose instants
-- are nanoseconds since the epoch, and the arithmetic of `f64`, whose values are bit patterns.
-- `uuid::Uuid::new_v4` has no model: an operation that calls it takes the fresh id as an argument.
use omnisec.Prelude.{ℕ, ◌+◌, ◌*◌, ◌^◌, ◌<◌, ◌≡◌, Bool, String}

abbrev pub Uuid : Type 0
Uuid = ℕ

-- chrono::DateTime<Utc>
abbrev pub DateTime : Type 0
DateTime = ℕ

abbrev pub nanos_per_sec : ℕ
nanos_per_sec = 1_000_000_000

-- `after t s` is `t + chrono::Duration::seconds(s as i64)`, which is documented to be exact where
-- the result is in range. Nothing is said of it elsewhere.
pub record Chrono : Type 0 where
  pub after : DateTime → ℕ → DateTime
  pub after_exact :
      (t : DateTime) (s : ℕ) → t < 2 ^ 63 → s < 2 ^ 32 → after t s ≡ t + s * nanos_per_sec

abbrev pub F64 : Type 0
F64 = ℕ

-- The operations of f64 that the crates call. `literal n d` is the decimal `n / 10 ^ d`.
pub record FloatOps : Type 0 where
  pub add : F64 → F64 → F64
  pub sub : F64 → F64 → F64
  pub mul : F64 → F64 → F64
  pub div : F64 → F64 → F64
  pub f64_min : F64 → F64 → F64
  pub abs : F64 → F64
  pub sqrt : F64 → F64
  pub lt : F64 → F64 → Bool
  pub le : F64 → F64 → Bool
  pub of_nat : ℕ → F64
  pub literal : ℕ → ℕ → F64
  pub powi : F64 → ℕ → F64

-- std::time::Duration, in nanoseconds
abbrev pub Duration : Type 0
Duration = ℕ

-- `Duration::as_secs_f64` and `Duration::from_secs_f64`
pub record DurationOps : Type 0 where
  pub as_secs : Duration → F64
  pub from_secs : F64 → Duration

-- What `format!` makes of an f64, without and with a number of decimals, and the casts
-- of an f64 to an unsigned integer with a number of bits.
pub record F64Text : Type 0 where
  pub display : F64 → String
  pub fixed : ℕ → F64 → String
  pub to_nat : ℕ → F64 → ℕ
