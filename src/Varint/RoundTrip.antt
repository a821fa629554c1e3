-- ===== src/Varint/RoundTrip.antt =====
-- What the writers of `varint.rs` write, the readers read back.
use frame_mc.Prelude.{ℕ, zero, suc, ◌+◌, ◌-◌, ◌*◌, ◌/◌, ◌%◌, ◌^◌, ◌<◌, ◌≡◌, arith}
use frame_mc.Prelude.{List, ◌++◌, bit_and, lt_wf, IsU32, IsU64}
use frame_mc.Error.{ok}
use frame_mc.Varint.{Format, varint, varlong, read_loop, decode_varint, decode_varlong}
use frame_mc.Varint.{encode_varint, encode_varlong}
use frame_mc.Varint.Rounds.{Fits, Fits-varint, Fits-varlong, groups, write_loop-groups}
use frame_mc.Varint.Rounds.{read_last, read_inner, split_group, group_room}

module _ (f : Format) (high : ℕ) (fits : Fits f high) where
  -- The reader's test on the last byte that a word can have.
  last_round :
      (v position n : ℕ)
      → position ≡ 7 * n
      → n + 1 ≡ f.max_bytes
      → v * 2 ^ position < 2 ^ f.width
      → (v < 128) × (bit_and v f.spare ≡ 0)
  last_round v position n hp hn h =
      fits.last_group v (rw (let e : position ≡ 7 * (f.max_bytes - 1) = omega arith in e) at h)

  read_loop-groups :
      (k v value position n : ℕ) (rest : List ℕ)
      → v < 128 ^ suc k
      → position ≡ 7 * n
      → n < f.max_bytes
      → value < 2 ^ position
      → value + v * 2 ^ position < 2 ^ f.width
      → read_loop f (groups k v ++ rest) value position n ≡ ok (value + v * 2 ^ position, rest)
  unfolding groups
  read_loop-groups zero v value position n rest hk hp hn hv hw =
      read_last f v value position n rest (omega arith)
        (λ e. (last_round v position n hp e (omega arith)).1) hv (omega (arith, fits.in_word)) hw
  read_loop-groups (suc k) v value position n rest hk hp hn hv hw = ground (
    arith,
    last_round v position n hp,
    read_last f v value position n rest,
    fits.in_word,
    split_group v position,
    group_room value (v % 128) position hv (omega arith),
    read_inner f (v % 128) value position n (groups k (v / 128) ++ rest),
    read_loop-groups k (v / 128) (value + v % 128 * 2 ^ position) (position + 7) (n + 1) rest
        (omega arith),
  )

pub encode_varint-groups : (v : ℕ) → IsU32 v → encode_varint v ≡ groups 4 v
unfolding encode_varint
encode_varint-groups v h =
    write_loop-groups varint _ Fits-varint 4 v (lt_wf.apply v) h (omega arith)

pub encode_varlong-groups : (v : ℕ) → IsU64 v → encode_varlong v ≡ groups 9 v
unfolding encode_varlong
encode_varlong-groups v h =
    write_loop-groups varlong _ Fits-varlong 9 v (lt_wf.apply v) h (omega arith)

-- Decoding what `encode_varint` wrote for an `i32` gives the number back and leaves the bytes
-- that follow it.
pub decode_varint-encode_varint :
    (v : ℕ) (rest : List ℕ) → IsU32 v → decode_varint (encode_varint v ++ rest) ≡ ok (v, rest)
unfolding decode_varint
decode_varint-encode_varint v rest h =
    rw (encode_varint-groups v h)
      (ground (arith, read_loop-groups varint _ Fits-varint 4 v 0 0 0 rest (omega arith)))

-- Decoding what `encode_varlong` wrote for an `i64` gives the number back and leaves the bytes
-- that follow it.
pub decode_varlong-encode_varlong :
    (v : ℕ) (rest : List ℕ) → IsU64 v → decode_varlong (encode_varlong v ++ rest) ≡ ok (v, rest)
unfolding decode_varlong
decode_varlong-encode_varlong v rest h =
    rw (encode_varlong-groups v h)
      (ground (arith, read_loop-groups varlong _ Fits-varlong 9 v 0 0 0 rest (omega arith)))
