-- ===== src/Prelude/Bits.antt =====
-- Single bits of a word, in the arithmetic form that `omega` reads.
use Prim.Native.Nat.{ℕ, ◌+◌, ◌/◌, ◌%◌, ◌^◌}
use mathlib.Core.Bool.{Bool}
use nfsrods.Prelude.Tests.{◌==◌, if◌then◌else◌}

-- `(x & (1 << k)) != 0`
abbrev pub test_bit : ℕ → ℕ → Bool
test_bit x k = ((x / 2 ^ k) % 2) == 1

-- `x | (1 << k)`
abbrev pub set_bit : ℕ → ℕ → ℕ
set_bit x k = if test_bit x k then x else x + 2 ^ k
