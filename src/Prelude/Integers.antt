-- ===== src/Prelude/Integers.antt =====
-- `i64`, as the integers: what the crates add are differences of instants, far below 2 ^ 63.
use omnisec.Prelude.{ℕ, ◌+◌, ◌-◌, ◌/◌, ◌%◌, ◌^◌, leb, ltb, if◌then◌else◌}

pub data ℤ : Type 0 where
  pos negsuc : ℕ → ℤ

-- The difference of two natural numbers.
abbrev pub difference : ℕ → ℕ → ℤ
difference a b = if leb b a then pos (a - b) else negsuc (b - a - 1)

abbrev pub add_int : ℤ → ℤ → ℤ
add_int (pos a) (pos b) = pos (a + b)
add_int (pos a) (negsuc b) = difference a (b + 1)
add_int (negsuc a) (pos b) = difference b (a + 1)
add_int (negsuc a) (negsuc b) = negsuc (a + b + 1)

-- The difference divided by d, rounded towards 0.
abbrev pub divided_difference : ℕ → ℕ → ℕ → ℤ
divided_difference a b d = if leb b a then pos ((a - b) / d) else difference 0 ((b - a) / d)

-- The number of `bits` bits as a signed one (`as i64`, `as i32`).
abbrev pub signed : ℕ → ℕ → ℤ
signed bits n = if ltb n (2 ^ (bits - 1)) then pos n else negsuc (2 ^ bits - n - 1)

-- The difference of two signed numbers that were cast from unsigned ones, which wraps around.
abbrev pub wrapping_difference : ℕ → ℕ → ℕ → ℤ
wrapping_difference bits a b = signed bits ((a + 2 ^ bits - b) % 2 ^ bits)
