-- ===== src/Prelude/Words.antt =====
-- 32-bit words as native numbers below 2 ^ 32. A signed `int` is its two's complement pattern.
use Prim.Native.Nat.{ℕ, ◌+◌, ◌-◌, ◌%◌, ◌^◌}
use mathlib.Core.Bool.{Bool}
use icetunnel.Prelude.Tests.{ltb, leb}

abbrev pub int_max : ℕ
int_max = 0x7fff_ffff

-- a + b, a - b and -a, as the machine wraps them.
abbrev pub add32 : ℕ → ℕ → ℕ
add32 a b = (a + b) % 2 ^ 32

abbrev pub sub32 : ℕ → ℕ → ℕ
sub32 a b = (a + 2 ^ 32 - b % 2 ^ 32) % 2 ^ 32

abbrev pub neg32 : ℕ → ℕ
neg32 a = sub32 0 a

-- a < 0, a < b and a ≤ b on `int`: moving the patterns up by 2 ^ 31 makes the order that of ℕ.
abbrev pub is_neg : ℕ → Bool
is_neg a = leb (2 ^ 31) a

abbrev pub bias : ℕ → ℕ
bias a = (a + 2 ^ 31) % 2 ^ 32

abbrev pub slt : ℕ → ℕ → Bool
slt a b = ltb (bias a) (bias b)

abbrev pub sle : ℕ → ℕ → Bool
sle a b = leb (bias a) (bias b)
