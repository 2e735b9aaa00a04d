-- ===== src/Prelude/Words.antt =====
-- Machine words: the ranges of `u32`, `i32` and the rest, and the casts (`as`) between them.
use Prim.Native.Nat.{ℕ, ◌-◌, ◌%◌, ◌^◌, ◌≤◌, ◌<◌}
use mathlib.Core.Path.{◌≡◌}
use native.Mathlib.Omega.{arith}
use omnipresent.Prelude.Tests.{ltb, if◌then◌else◌}
use omnipresent.Prelude.Int.{ℤ, pos, negsuc, pos_part, neg_part}

-- The values that an `i32` can hold.
abbrev pub IsI32 : ℤ → Type 0
IsI32 a = (pos_part a < 2 ^ 31) × (neg_part a ≤ 2 ^ 31)

abbrev pub IsU32 : ℕ → Type 0
IsU32 a = a < 2 ^ 32

-- `x as u32` of a signed value: its low 32 bits.
unfoldable pub as_u32 : ℤ → ℕ
as_u32 (pos a) = a % 2 ^ 32
as_u32 (negsuc a) = 2 ^ 32 - 1 - a % 2 ^ 32

-- The signed value of a 32-bit pattern.
abbrev pub signed32 : ℕ → ℤ
signed32 w = if ltb w (2 ^ 31) then pos w else negsuc (2 ^ 32 - 1 - w)

-- `x as i32`: the low 32 bits, read as a signed value.
unfoldable pub as_i32 : ℤ → ℤ
unfolding as_u32
as_i32 a = signed32 (as_u32 a)

pub as_i32_exact : (a : ℤ) → IsI32 a → as_i32 a ≡ a
unfolding as_i32
as_i32_exact (pos a) h = ground arith
as_i32_exact (negsuc a) h = ground arith

pub as_u32_exact : (a : ℕ) → IsU32 a → as_u32 (pos a) ≡ a
unfolding as_u32
as_u32_exact a h = omega arith
