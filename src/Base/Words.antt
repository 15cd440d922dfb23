-- ===== src/Base/Words.antt =====
-- Machine words as native numbers: bits, masks, and the C conversions between int and uint64.
use Prim.Native.Nat.{ℕ, ◌+◌, ◌-◌, ◌/◌, ◌%◌, ◌^◌, ◌≤◌, ◌<◌}
use mathlib.Core.Path.{◌≡◌}
use mathlib.Core.Logic.{◌⊎◌}
use mathlib.Core.Bool.{Bool}
use native.Mathlib.Omega.{arith}
use cse_536_advanced_operati.Base.Tests.{◌==◌, ltb, if◌then◌else◌}

-- uint64 values wrap at 2 ^ 64.
abbrev pub u64 : ℕ → ℕ
u64 n = n % 2 ^ 64

-- x & (1 << k) as a truth value
abbrev pub has_bit : ℕ → ℕ → Bool
has_bit k x = x / 2 ^ k % 2 == 1

-- x | (1 << k)
abbrev pub set_bit : ℕ → ℕ → ℕ
set_bit k x = if has_bit k x then x else x + 2 ^ k

-- x & ~(1 << k)
abbrev pub clear_bit : ℕ → ℕ → ℕ
clear_bit k x = if has_bit k x then x - 2 ^ k else x

-- The uint64 that `(uint64)(int)v` is: the low 32 bits, with the sign extended.
abbrev pub int_of_u64 : ℕ → ℕ
int_of_u64 v = if ltb (v % 2 ^ 32) (2 ^ 31) then v % 2 ^ 32 else v % 2 ^ 32 + (2 ^ 64 - 2 ^ 32)

-- The values that survive the conversion: those of a 32-bit int.
abbrev pub FitsInt : ℕ → Type 0
FitsInt v = (v < 2 ^ 31) ⊎ ((2 ^ 64 - 2 ^ 31 ≤ v) × (v < 2 ^ 64))

pub int_of_u64-exact : (v : ℕ) → FitsInt v → int_of_u64 v ≡ v
int_of_u64-exact v h = ground arith

pub FitsInt-int_of_u64 : (v : ℕ) → FitsInt (int_of_u64 v)
FitsInt-int_of_u64 v = ground arith

pub int_of_u64-int_of_u64 : (v : ℕ) → int_of_u64 (int_of_u64 v) ≡ int_of_u64 v
int_of_u64-int_of_u64 v = int_of_u64-exact (int_of_u64 v) (FitsInt-int_of_u64 v)
