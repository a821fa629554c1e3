-- ===== src/Varint.antt =====
-- src/protocol/varint.rs: VarInts and VarLongs. A buffer or a stream is the list of the bytes that
-- it still gives, and its end is an `UnexpectedEof`.
pub mod Rounds
pub mod RoundTrip
pub mod Bounds
mod Examples
use frame_mc.Prelude.{ℕ, zero, suc, ◌+◌, ◌-◌, ◌*◌, ◌/◌, ◌%◌, ◌^◌, ◌≤◌, ◌<◌, bit_and, bit_or}
use frame_mc.Prelude.{◌≡◌, ◌≢◌, arith, List, [], ◌∷◌, not, ◌&&◌, ◌==◌, leb, if◌then◌else◌}
use frame_mc.Prelude.{as_u8, lt_wf}
use frame_mc.Prelude.Bits.{zero-bit_and}
use frame_mc.Error.{Result, ok, err, io, unexpected_eof, varint_overflow}
use mathlib.Core.Logic.{dite}
use mathlib.Core.WellFounded.{Acc}
use native.Mathlib.Decide.{ℕ_discrete}

-- What the two widths differ in: the bits of the word, the bytes at most, and the bits that must
-- be clear in the last of them.
pub record Format : Type 0 where
  pub width : ℕ
  pub max_bytes : ℕ
  pub spare : ℕ

abbrev pub varint : Format
varint = record { width = 32; max_bytes = 5; spare = 0xf0 }

abbrev pub varlong : Format
varlong = record { width = 64; max_bytes = 10; spare = 0xfe }

-- `value |= ((current_byte & 0x7F) as u32).wrapping_shl(position)`
unfoldable pub add_group : Format → ℕ → ℕ → ℕ → ℕ
add_group f value b position =
    bit_or value (bit_and b 0x7f * 2 ^ (position % f.width) % 2 ^ f.width)

-- The loop of all four readers.
unfoldable pub read_loop : Format → List ℕ → ℕ → ℕ → ℕ → Result (ℕ × List ℕ)
unfolding add_group
read_loop f [] value position bytes_read = err (io unexpected_eof)
read_loop f (b ∷ rest) value position bytes_read =
    let value' = add_group f value b position in
    let next = read_loop f rest value' (position + 7) (bytes_read + 1) in
    if (bytes_read + 1 == f.max_bytes) && not (bit_and b f.spare == 0)
    then err varint_overflow
    else if bit_and b 0x80 == 0
    then ok (value', rest)
    else if leb f.max_bytes (bytes_read + 1)
    then err varint_overflow
    else next

unfoldable pub read_varint : List ℕ → Result (ℕ × List ℕ)
read_varint reader = read_loop varint reader 0 0 0

unfoldable pub read_varlong : List ℕ → Result (ℕ × List ℕ)
read_varlong reader = read_loop varlong reader 0 0 0

unfoldable pub decode_varint : List ℕ → Result (ℕ × List ℕ)
decode_varint buf = read_loop varint buf 0 0 0

unfoldable pub decode_varlong : List ℕ → Result (ℕ × List ℕ)
decode_varlong buf = read_loop varlong buf 0 0 0

-- A word with a bit above the low seven is not 0, and its shift by seven is smaller.
shift_shrinks : (temp mask : ℕ) → bit_and temp mask ≢ 0 → temp / 2 ^ 7 < temp
shift_shrinks zero mask h = absurd (h (zero-bit_and mask))
shift_shrinks (suc t) mask h = omega arith

-- The loop of both writers; `high` is the mask `!0x7F` of the width.
unfoldable pub write_loop : ℕ → (temp : ℕ) → Acc ◌<◌ temp → List ℕ
unfolding ℕ_discrete shift_shrinks
write_loop high temp (Acc.intro _ smaller) =
    dite (ℕ_discrete (bit_and temp high) 0) (λ _. as_u8 temp ∷ [])
      (λ more.
        as_u8 (bit_or (bit_and temp 0x7f) 0x80)
        ∷ write_loop high (temp / 2 ^ 7) (smaller (temp / 2 ^ 7) (shift_shrinks temp high more)))

-- The bytes that `encode_varint` appends to its buffer, for a word given as `value as u32`.
unfoldable pub encode_varint : ℕ → List ℕ
unfolding write_loop lt_wf
encode_varint value = write_loop (2 ^ 32 - 1 - 0x7f) value (lt_wf.apply value)

unfoldable pub encode_varlong : ℕ → List ℕ
unfolding write_loop lt_wf
encode_varlong value = write_loop (2 ^ 64 - 1 - 0x7f) value (lt_wf.apply value)

unfoldable pub varint_size : ℕ → ℕ
varint_size value =
    if leb value 0x7f
    then 1
    else if leb value 0x3fff
    then 2
    else if leb value 0x1f_ffff
    then 3
    else if leb value 0x0fff_ffff
    then 4
    else 5
