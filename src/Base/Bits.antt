-- ===== src/Base/Bits.antt =====
-- Single bits of a word, named by their masks, which are powers of two.
use Prim.Native.Nat.{ℕ, ◌+◌, ◌-◌, ◌/◌, ◌%◌}
use mathlib.Core.Bool.{Bool}
use sty_linux.Base.Tests.{◌==◌, if◌then◌else◌}

-- `x & mask`, as a test
abbrev pub has_bit : (mask x : ℕ) → Bool
has_bit mask x = x / mask % 2 == 1

-- `x | mask`
unfoldable pub set_bit : (mask x : ℕ) → ℕ
set_bit mask x = if has_bit mask x then x else x + mask

-- `x & ~mask`
unfoldable pub clear_bit : (mask x : ℕ) → ℕ
clear_bit mask x = if has_bit mask x then x - mask else x
