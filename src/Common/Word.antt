-- ===== src/Common/Word.antt =====
-- `i32` values as bit patterns below 2 ^ 32, compared as signed numbers.
use Prim.Native.Nat.{ℕ, ◌+◌, ◌%◌}
use mathlib.Core.Bool.{Bool}
use kong_rust.Common.Tests.{ltb, leb}

-- `x + 1` of an `i32`, wrapping as the release profile does.
abbrev pub incr_i32 : ℕ → ℕ
incr_i32 x = (x + 1) % 4294967296

-- The order of the signed numbers that two patterns stand for.
abbrev pub bias : ℕ → ℕ
bias x = (x + 2147483648) % 4294967296

abbrev pub lt_i32 : ℕ → ℕ → Bool
lt_i32 x y = ltb (bias x) (bias y)

abbrev pub le_i32 : ℕ → ℕ → Bool
le_i32 x y = leb (bias x) (bias y)
