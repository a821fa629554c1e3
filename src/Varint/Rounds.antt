-- ===== src/Varint/Rounds.antt =====
-- One round of the loops of `varint.rs` in plain arithmetic.
use frame_mc.Prelude.{ℕ, ◌+◌, ◌-◌, ◌*◌, ◌/◌, ◌%◌, ◌^◌, ◌<◌, ◌≤◌, ◌≡◌, arith, ap, List, ◌∷◌, []}
use frame_mc.Prelude.{bit_and, ltb, suc, zero, if◌then◌else◌}
use frame_mc.Prelude.Bits.{low_seven, top_bit, set_top_bit, bit_or_disjoint, not_low_u32}
use frame_mc.Prelude.Bits.{high_nibble, above_lowest}
use frame_mc.Prelude.Bits.{not_low_u64}
use frame_mc.Error.{ok}
use frame_mc.Varint.{Format, varint, varlong, add_group, read_loop, write_loop}
use mathlib.Core.WellFounded.{Acc}
use native.Mathlib.Nat.{mod-eq_of_lt}
use native.Mathlib.Numerals.{towards_suc}

shift_seven : (s : ℕ) → 2 ^ (s + 7) ≡ 128 * 2 ^ s
shift_seven s = simp towards_suc (omega arith)

-- The lowest seven bits of a word and the others, each in its place, make the word.
pub split_group :
    (v position : ℕ) → v % 128 * 2 ^ position + v / 128 * 2 ^ (position + 7) ≡ v * 2 ^ position
split_group v position =
    let parts : (v / 128 * 128 + v % 128) * 2 ^ position ≡ v * 2 ^ position =
      rw (let e : v / 128 * 128 + v % 128 ≡ v = omega arith in e) in
    omega (arith, parts, ap (λ (unit : ℕ). v / 128 * unit) (shift_seven position))

times_mono : (g p : ℕ) → g < 128 → g * p ≤ 127 * p
times_mono g p h = grind arith

-- A number below 2 ^ s and a group above it stay below 2 ^ (s + 7).
pub group_room : (value g s : ℕ) → value < 2 ^ s → g < 128 → value + g * 2 ^ s < 2 ^ (s + 7)
group_room value g s hv hg =
    omega (arith, ap (λ (t : ℕ). t) (shift_seven s), times_mono g (2 ^ s) hg)

-- What the numbers of a format are to one another: the mask of the writer keeps the bits above
-- the low seven, and a last group that fits the word passes the reader's test.
pub record Fits (f : Format) (high : ℕ) : Type 0 where
  pub high_bits : (t : ℕ) → t < 2 ^ f.width → bit_and t high ≡ t / 128 * 128
  pub in_word : 7 * f.max_bytes < f.width + 7
  pub last_group :
      (w : ℕ) → w * 2 ^ (7 * (f.max_bytes - 1)) < 2 ^ f.width → (w < 128) × (bit_and w f.spare ≡ 0)
  -- A last byte that passes the reader's test leaves the number in the word.
  pub last_byte :
      (value b : ℕ)
      → b < 256
      → bit_and b f.spare ≡ 0
      → value < 2 ^ (7 * (f.max_bytes - 1))
      → (b < 128) × (value + b * 2 ^ (7 * (f.max_bytes - 1)) < 2 ^ f.width)

pub Fits-varint : Fits varint (2 ^ 32 - 1 - 0x7f)
Fits-varint = record {
  high_bits = not_low_u32;
  in_word = omega arith;
  last_group = λ w h. (omega arith, ground (arith, high_nibble w));
  last_byte = λ value b hb e hv. (omega (arith, high_nibble b hb), omega (arith, high_nibble b hb));
}

pub Fits-varlong : Fits varlong (2 ^ 64 - 1 - 0x7f)
Fits-varlong = record {
  high_bits = not_low_u64;
  in_word = omega arith;
  last_group = λ w h. (omega arith, ground (arith, above_lowest w));
  last_byte =
      λ value b hb e hv. (omega (arith, above_lowest b hb), omega (arith, above_lowest b hb));
}

module _ (f : Format) where
  -- A group that fits above what was read adds up with it.
  pub add_group-eq :
      (value b position : ℕ)
      → value < 2 ^ position
      → position < f.width
      → b % 128 * 2 ^ position < 2 ^ f.width
      → add_group f value b position ≡ value + b % 128 * 2 ^ position
  unfolding add_group
  add_group-eq value b position hv hp fits =
      rw (mod-eq_of_lt hp, low_seven b, mod-eq_of_lt fits)
        (bit_or_disjoint position (b % 128) value hv)

  -- The reader on a last byte, and on a byte with the top bit set over the group `g`.
  pub read_last :
      (w value position n : ℕ) (rest : List ℕ)
      → w < 128
      → ((n + 1 ≡ f.max_bytes) → bit_and w f.spare ≡ 0)
      → value < 2 ^ position
      → position < f.width
      → value + w * 2 ^ position < 2 ^ f.width
      → read_loop f (w ∷ rest) value position n ≡ ok (value + w * 2 ^ position, rest)
  unfolding read_loop
  read_last w value position n rest hw spare hv hp fits =
      ground (arith, add_group-eq value w position, top_bit w)

  pub read_inner :
      (g value position n : ℕ) (rest : List ℕ)
      → g < 128
      → n + 1 < f.max_bytes
      → value < 2 ^ position
      → position < f.width
      → value + g * 2 ^ position < 2 ^ f.width
      → read_loop f ((g + 128) ∷ rest) value position n
        ≡ read_loop f rest (value + g * 2 ^ position) (position + 7) (n + 1)
  unfolding read_loop
  read_inner g value position n rest hg hn hv hp fits =
      ground (arith, add_group-eq value (g + 128) position, top_bit (g + 128))

-- The base 128 digits of `v`, lowest first, with 128 added to each but the last; `k` digits may
-- stand before the last one.
unfoldable pub groups : ℕ → ℕ → List ℕ
groups zero v = v ∷ []
groups (suc k) v =
    let others = groups k (v / 128) in if ltb v 128 then v ∷ [] else (v % 128 + 128) ∷ others

module _ (f : Format) (high : ℕ) (fits : Fits f high) where
  pub write_loop-groups :
      (k v : ℕ) (a : Acc ◌<◌ v)
      → v < 2 ^ f.width
      → v < 128 ^ suc k
      → write_loop high v a ≡ groups k v
  unfolding write_loop groups
  write_loop-groups zero v (Acc.intro _ smaller) hv hk = ground (arith, fits.high_bits v hv)
  write_loop-groups (suc k) v (Acc.intro _ smaller) hv hk = grind (
    arith,
    fits.high_bits v hv,
    low_seven v,
    set_top_bit (v % 128) (omega arith),
    λ (a : Acc ◌<◌ (v / 128)). write_loop-groups k (v / 128) a (omega arith) (omega arith),
  )
