-- ===== src/Prelude/Words.antt =====
-- Unsigned 64-bit arithmetic (`u64`, and `usize` on the platforms the program supports).
use Prim.Native.Nat.{ℕ, ◌+◌, ◌%◌, min}

abbrev pub u64_max : ℕ
u64_max = 18446744073709551615

abbrev pub add64 : ℕ → ℕ → ℕ
add64 a b = (a + b) % 18446744073709551616

-- `saturating_add`; `saturating_sub` is the subtraction of the natural numbers.
abbrev pub sat_add64 : ℕ → ℕ → ℕ
sat_add64 a b = min (a + b) 18446744073709551615
