-- ===== src/Reliability/Readings.antt =====
-- What the detectors of crates/reliability/src/{fd,thread,cpu}.rs share: a bounded queue of samples, a flag with its
-- time, and differences of instants.
use omnisec.Prelude.{
  ℕ, ◌+◌, ◌-◌, ◌/◌, ◌%◌, ◌^◌, Bool, true, false, not, ◌&&◌, Option, none, some, List, [], ◌∷◌, ◌++◌,
  length, drop, leb, ltb, if◌then◌else◌,
}
use omnisec.Prelude.External.{DateTime, F64, FloatOps, nanos_per_sec}

abbrev pub push_bounded {ℓ} : {A : Type ℓ} → ℕ → List A → A → List A
push_bounded most samples sample =
    (if leb most (length samples) then drop 1 samples else samples) ++ sample ∷ []

-- The branches on what is found and on the flag.
abbrev pub flag_after : Bool → DateTime → Bool → Option DateTime → Bool × Option DateTime
flag_after found now is_set at =
    if found && not is_set
    then (true, some now)
    else if not found && is_set
    then (false, none)
    else (is_set, at)

abbrev pub last_of {ℓ} : {A : Type ℓ} → A → List A → A
last_of x [] = x
last_of x (y ∷ ys) = last_of y ys

-- `later.signed_duration_since(earlier).num_seconds()`, as a u64 and as an f64
abbrev pub secs_u64 : DateTime → DateTime → ℕ
secs_u64 later earlier =
    if ltb later earlier
    then (2 ^ 64 - (earlier - later) / nanos_per_sec) % 2 ^ 64
    else (later - earlier) / nanos_per_sec

abbrev pub secs_f64 : FloatOps → DateTime → DateTime → F64
secs_f64 f later earlier =
    if ltb later earlier
    then f.sub (f.literal 0 1) (f.of_nat ((earlier - later) / nanos_per_sec))
    else f.of_nat ((later - earlier) / nanos_per_sec)

-- `iter().sum::<u32>() / count as u32`
abbrev pub u32_total : ℕ → List ℕ → ℕ
u32_total total [] = total
u32_total total (n ∷ ns) = u32_total ((total + n) % 2 ^ 32) ns

abbrev pub u32_average : List ℕ → ℕ
u32_average ns = u32_total 0 ns / (length ns % 2 ^ 32)

-- `iter().max().unwrap_or(0)`
abbrev pub greatest : ℕ → List ℕ → ℕ
greatest best [] = best
greatest best (n ∷ ns) = greatest (if ltb n best then best else n) ns
