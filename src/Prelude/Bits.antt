-- ===== src/Prelude/Bits.antt =====
-- Bit operations as arithmetic: the masks of the varint loops, and an `or` of disjoint fields.
use Prim.Native.Nat.{ℕ, zero, suc, ◌+◌, ◌-◌, ◌*◌, ◌/◌, ◌%◌, ◌^◌, ◌≤◌, ◌<◌, min, max}
use Prim.Native.Nat.{bit_and, bit_or, digits, bit_and-bitwise, bit_or-bitwise}
use mathlib.Core.Path.{◌≡◌, refl, ap}
use mathlib.Core.Bool.{Bool, true, ◌&&◌}
use native.Mathlib.Omega.{arith}
use native.Mathlib.Nat.{pow-suc, one-le-pow, div-div-eq-div-mul}
use frame_mc.Prelude.Tests.{◌==◌}

-- The fuel of the library's digit recursion does not matter, once it is at least the number.
module _ (z : ℕ → ℕ) (f : ℕ → ℕ → ℕ) where
  pub digits_enough : (m n a b : ℕ) → a ≤ m → a ≤ n → digits z f m a b ≡ digits z f n a b
  digits_enough zero zero a b hm hn = refl
  digits_enough zero (suc n) zero b hm hn = refl
  digits_enough (suc m) zero zero b hm hn = refl
  digits_enough (suc m) (suc n) zero b hm hn = refl
  digits_enough zero n (suc a) b hm hn = absurd (omega arith)
  digits_enough (suc m) zero (suc a) b hm hn = absurd (omega arith)
  digits_enough (suc m) (suc n) (suc a) b hm hn =
      rw (digits_enough m n (suc a / 2) (b / 2) (omega arith) (omega arith))

and_digit : (a b : ℕ) → bit_and a b ≡ bit_and (a / 2) (b / 2) * 2 + min (a % 2) (b % 2)
and_digit zero b = simp bit_and-bitwise (omega arith)
and_digit (suc a) b = simp bit_and-bitwise (
    omega (
      arith,
      digits_enough (λ b. 0) min a (suc a / 2) (suc a / 2) (b / 2) (omega arith) (omega arith),
    ))

pub or_digit : (a b : ℕ) → bit_or a b ≡ bit_or (a / 2) (b / 2) * 2 + max (a % 2) (b % 2)
or_digit zero b = simp bit_or-bitwise (omega arith)
or_digit (suc a) b = simp bit_or-bitwise (
    omega (
      arith,
      digits_enough (λ b. b) max a (suc a / 2) (suc a / 2) (b / 2) (omega arith) (omega arith),
    ))

times_pow-suc : (q k : ℕ) → q * 2 ^ suc k ≡ 2 * (q * 2 ^ k)
times_pow-suc q k = omega (arith, ap (λ (t : ℕ). q * t) (pow-suc 2 k))

pub zero-bit_or : (b : ℕ) → bit_or 0 b ≡ b
zero-bit_or b = bit_or-bitwise 0 b

pub zero-bit_and : (b : ℕ) → bit_and 0 b ≡ 0
zero-bit_and b = bit_and-bitwise 0 b

-- Fields that do not overlap: `r | (q << k)` is a sum when `r` fits `k` bits.
pub bit_or_disjoint : (k q r : ℕ) → r < 2 ^ k → bit_or r (q * 2 ^ k) ≡ r + q * 2 ^ k
bit_or_disjoint zero q r fits = ground (arith, zero-bit_or (q * 2 ^ 0))
bit_or_disjoint (suc k) q r fits = ground (
  arith,
  or_digit r (q * 2 ^ suc k),
  times_pow-suc q k,
  pow-suc 2 k,
  bit_or_disjoint k q (r / 2) (omega (arith, pow-suc 2 k)),
)

bit_and-zero_below : (n a : ℕ) → a ≤ n → bit_and a 0 ≡ 0
bit_and-zero_below n zero h = zero-bit_and 0
bit_and-zero_below zero (suc a) h = absurd (omega arith)
bit_and-zero_below (suc n) (suc a) h =
    omega (arith, and_digit (suc a) 0, bit_and-zero_below n (suc a / 2) (omega arith))

bit_and_ones : (k q r : ℕ) → r < 2 ^ k → bit_and (r + q * 2 ^ k) (2 ^ k - 1) ≡ r
bit_and_ones zero q r fits =
    ground (arith, bit_and-zero_below (r + q * 2 ^ 0) (r + q * 2 ^ 0) (omega arith))
bit_and_ones (suc k) q r fits = ground (
  arith,
  and_digit (r + q * 2 ^ suc k) (2 ^ suc k - 1),
  times_pow-suc q k,
  pow-suc 2 k,
  one-le-pow k 2,
  bit_and_ones k q (r / 2) (omega (arith, pow-suc 2 k)),
)

-- A mask of `k` low bits is the remainder by `2 ^ k`.
pub bit_and_mask : (k a : ℕ) → bit_and a (2 ^ k - 1) ≡ a % 2 ^ k
bit_and_mask k a = ground (arith, one-le-pow k 2, bit_and_ones k (a / 2 ^ k) (a % 2 ^ k))

div_pow-suc : (a k : ℕ) → a / 2 / 2 ^ k ≡ a / 2 ^ suc k
div_pow-suc a k = rw div-div-eq-div-mul (ap (λ (t : ℕ). a / t) (omega (arith, pow-suc 2 k)))

-- A mask whose `k` low bits are clear looks at the bits above them only.
bit_and_shifted : (k m a : ℕ) → bit_and a (m * 2 ^ k) ≡ bit_and (a / 2 ^ k) m * 2 ^ k
bit_and_shifted zero m a = ground arith
bit_and_shifted (suc k) m a = ground (
  arith,
  and_digit a (m * 2 ^ suc k),
  times_pow-suc m k,
  pow-suc 2 k,
  bit_and_shifted k m (a / 2),
  times_pow-suc (bit_and (a / 2 ^ suc k) m) k,
  div_pow-suc a k,
)

-- Every byte of a small range, checked by evaluation.
module _ (f g : ℕ → ℕ) where
  same_below : ℕ → Bool
  same_below zero = true
  same_below (suc n) = (f n == g n) && same_below n

  same_below_sound : (n : ℕ) → same_below n ≡ true → (i : ℕ) → i < n → f i ≡ g i
  unfolding same_below
  same_below_sound zero e i h = absurd (omega arith)
  same_below_sound (suc n) e i h = ground (arith, same_below_sound n (ground arith) i)

pub top_bit : (b : ℕ) → b < 256 → bit_and b 0x80 ≡ b / 128 * 128
unfolding same_below
top_bit = same_below_sound _ _ 256 refl

pub high_nibble : (b : ℕ) → b < 256 → bit_and b 0xf0 ≡ b / 16 * 16
unfolding same_below
high_nibble = same_below_sound _ _ 256 refl

pub above_lowest : (b : ℕ) → b < 256 → bit_and b 0xfe ≡ b / 2 * 2
unfolding same_below
above_lowest = same_below_sound _ _ 256 refl

pub set_top_bit : (g : ℕ) → g < 128 → bit_or g 0x80 ≡ g + 128
unfolding same_below
set_top_bit = same_below_sound _ _ 128 refl

-- `t & !0x7f` keeps what stands above the seven low bits, for a `u32` and for a `u64`.
pub not_low_u32 : (t : ℕ) → t < 2 ^ 32 → bit_and t (2 ^ 32 - 1 - 0x7f) ≡ t / 128 * 128
not_low_u32 t h = ground (arith, bit_and_shifted 7 (2 ^ 25 - 1) t, bit_and_mask 25 (t / 128))

pub not_low_u64 : (t : ℕ) → t < 2 ^ 64 → bit_and t (2 ^ 64 - 1 - 0x7f) ≡ t / 128 * 128
not_low_u64 t h = ground (arith, bit_and_shifted 7 (2 ^ 57 - 1) t, bit_and_mask 57 (t / 128))

pub low_seven : (t : ℕ) → bit_and t 0x7f ≡ t % 128
low_seven t = bit_and_mask 7 t
