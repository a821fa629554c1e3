-- ===== src/Prelude/Words.antt =====
-- Machine words. An `i32` is its bit pattern, a number below 2 ^ 32, and a `usize` has 64 bits.
use Prim.Native.Nat.{ℕ, ◌+◌, ◌-◌, ◌%◌, ◌^◌, ◌<◌}
use mathlib.Core.Bool.{Bool, not, ◌&&◌}
use frame_mc.Prelude.Tests.{leb, if◌then◌else◌}

abbrev pub IsByte : ℕ → Type 0
IsByte b = b < 2 ^ 8

abbrev pub IsU16 : ℕ → Type 0
IsU16 v = v < 2 ^ 16

abbrev pub IsU32 : ℕ → Type 0
IsU32 v = v < 2 ^ 32

abbrev pub IsU64 : ℕ → Type 0
IsU64 v = v < 2 ^ 64

-- A length that an `i32` holds as a positive number.
abbrev pub IsShort : ℕ → Type 0
IsShort n = n < 2 ^ 31

-- `n as u8`, `n as u16`, and `n as i32` of an unsigned number.
abbrev pub as_u8 : ℕ → ℕ
as_u8 n = n % 2 ^ 8

abbrev pub as_u16 : ℕ → ℕ
as_u16 n = n % 2 ^ 16

abbrev pub as_i32 : ℕ → ℕ
as_i32 n = n % 2 ^ 32

-- `v < 0` of an `i32`.
abbrev pub is_negative : ℕ → Bool
is_negative v = leb (2 ^ 31) v

-- `v as usize` of an `i32`: the sign is extended.
abbrev pub as_usize : ℕ → ℕ
as_usize v = if is_negative v then v + (2 ^ 64 - 2 ^ 32) else v

-- `v >= k` and `v < k` of an `i32` and a constant that is not negative.
abbrev pub at_least : ℕ → ℕ → Bool
at_least v k = not (is_negative v) && leb k v

abbrev pub below : ℕ → ℕ → Bool
below v k = not (at_least v k)
