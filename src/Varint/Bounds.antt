-- ===== src/Varint/Bounds.antt =====
-- The readers of `varint.rs` on any bytes: what they take, and how they fail.
use frame_mc.Prelude.{ℕ, zero, suc, ◌+◌, ◌-◌, ◌*◌, ◌/◌, ◌%◌, ◌^◌, ◌<◌, ◌≤◌, ◌≡◌, arith, ◌⊎◌}
use frame_mc.Prelude.{List, [], ◌∷◌, ◌++◌, bit_and, length, IsU32, IsU64, All, IsByte, inl, inr}
use frame_mc.Prelude.{append-nil, length-append}
use frame_mc.Error.{ok, err, io, unexpected_eof, varint_overflow}
use frame_mc.Varint.{Format, varint, varlong, add_group, read_loop, decode_varint, decode_varlong}
use frame_mc.Varint.{encode_varint, varint_size}
use frame_mc.Varint.Rounds.{Fits, Fits-varint, Fits-varlong, groups, add_group-eq, group_room}
use frame_mc.Varint.RoundTrip.{encode_varint-groups, decode_varint-encode_varint}
use native.Mathlib.Nat.{pow-le-pow_right, mod-eq_of_lt}
use native.Mathlib.Decide.{dec_lt}

module _ (f : Format) (high : ℕ) (fits : Fits f high) where
  -- A byte that the reader accepts leaves the value in the word.
  accepted :
      (value b position n : ℕ)
      → b < 256
      → position ≡ 7 * n
      → n < f.max_bytes
      → value < 2 ^ position
      → ((n + 1 ≡ f.max_bytes) → bit_and b f.spare ≡ 0)
      → value + b % 128 * 2 ^ position < 2 ^ f.width
  accepted value b position n hb hp hn hv spare = elim (dec_lt (n + 1) f.max_bytes) [
    | yes inner ↦ omega (
      arith,
      group_room value (b % 128) position hv (omega arith),
      pow-le-pow_right {n = 2} (omega arith) {i = position + 7} {j = f.width}
          (omega (arith, fits.in_word)),
    )
    | no outer ↦
        let e : position ≡ 7 * (f.max_bytes - 1) = omega arith in
        let (small, room) = fits.last_byte value b hb (spare (omega arith)) (rw e at hv) in
        rw (e, mod-eq_of_lt small) room
  ]

  pub read_loop_takes :
      (src : List ℕ) (value position n v : ℕ) (rest : List ℕ)
      → All IsByte src
      → position ≡ 7 * n
      → n < f.max_bytes
      → value < 2 ^ position
      → read_loop f src value position n ≡ ok (v, rest)
      → (v < 2 ^ f.width)
        × (length rest < length src)
        × (length src + n ≤ length rest + f.max_bytes)
        × All IsByte rest
  unfolding read_loop
  read_loop_takes [] value position n v rest bytes hp hn hv e = cc
  read_loop_takes (b ∷ bs) value position n v rest bytes hp hn hv e = ground (
    arith,
    accepted value b position n bytes.0 hp hn hv,
    add_group-eq f value b position hv (omega (arith, fits.in_word)),
    group_room value (b % 128) position hv (omega arith),
    read_loop_takes bs (add_group f value b position) (position + 7) (n + 1) v rest bytes.1,
  )

-- On any bytes: a VarInt that is accepted fits an `i32`, takes 1 to 5 bytes, and leaves bytes.
pub decode_varint_takes :
    (src : List ℕ) (v : ℕ) (rest : List ℕ)
    → All IsByte src
    → decode_varint src ≡ ok (v, rest)
    → IsU32 v × (length rest < length src) × (length src ≤ length rest + 5) × All IsByte rest
unfolding decode_varint
decode_varint_takes src v rest bytes e =
    ground (arith, read_loop_takes varint _ Fits-varint src 0 0 0 v rest bytes)

-- On any bytes: a VarLong that is accepted fits an `i64`, takes 1 to 10 bytes, and leaves bytes.
pub decode_varlong_takes :
    (src : List ℕ) (v : ℕ) (rest : List ℕ)
    → All IsByte src
    → decode_varlong src ≡ ok (v, rest)
    → IsU64 v × (length rest < length src) × (length src ≤ length rest + 10) × All IsByte rest
unfolding decode_varlong
decode_varlong_takes src v rest bytes e =
    ground (arith, read_loop_takes varlong _ Fits-varlong src 0 0 0 v rest bytes)

module _ (f : Format) where
  -- The reader does not look past the number: bytes behind the input join the rest.
  pub read_loop-append :
      (src more : List ℕ) (value position n v : ℕ) (rest : List ℕ)
      → read_loop f src value position n ≡ ok (v, rest)
      → read_loop f (src ++ more) value position n ≡ ok (v, rest ++ more)
  unfolding read_loop
  read_loop-append [] more value position n v rest e = cc
  read_loop-append (b ∷ bs) more value position n v rest e =
      ground (
        arith,
        read_loop-append bs more (add_group f value b position) (position + 7) (n + 1) v rest,
      )

  read_loop-append_overflow :
      (src more : List ℕ) (value position n : ℕ)
      → read_loop f src value position n ≡ err varint_overflow
      → read_loop f (src ++ more) value position n ≡ err varint_overflow
  unfolding read_loop
  read_loop-append_overflow [] more value position n e = cc
  read_loop-append_overflow (b ∷ bs) more value position n e = ground (
    arith,
    read_loop-append_overflow bs more (add_group f value b position) (position + 7) (n + 1),
  )

  -- The three ways in which the reader ends.
  pub read_loop-cases :
      (src : List ℕ) (value position n : ℕ)
      → ((p : ℕ × List ℕ) × (read_loop f src value position n ≡ ok p))
        ⊎ (read_loop f src value position n ≡ err varint_overflow)
        ⊎ (read_loop f src value position n ≡ err (io unexpected_eof))
  unfolding read_loop
  read_loop-cases [] value position n = ground arith
  read_loop-cases (b ∷ bs) value position n =
      ground (arith, read_loop-cases bs (add_group f value b position) (position + 7) (n + 1))

-- The VarInt of an `i32`, cut short anywhere inside, is answered by an `UnexpectedEof`, never by
-- a number.
pub decode_varint_truncated :
    (v x : ℕ) (front back : List ℕ)
    → IsU32 v
    → encode_varint v ≡ front ++ (x ∷ back)
    → decode_varint front ≡ err (io unexpected_eof)
unfolding decode_varint
decode_varint_truncated v x front back h cut = elim (read_loop-cases varint front 0 0 0) [
  | inl ((u, rest), e) ↦ ground (
    arith,
    whole,
    read_loop-append varint front (x ∷ back) 0 0 0 u rest e,
    length-append rest (x ∷ back),
  )
  | inr (inl e) ↦ cc (whole, read_loop-append_overflow varint front (x ∷ back) 0 0 0 e)
  | inr (inr e) ↦ e
]
  where
    whole : read_loop varint (front ++ (x ∷ back)) 0 0 0 ≡ ok (v, [])
    whole = rw (append-nil, cut) at (decode_varint-encode_varint v [] h)

-- `varint_size` is the number of bytes that `encode_varint` writes, for every `i32`.
pub varint_size-encode_varint : (v : ℕ) → IsU32 v → varint_size v ≡ length (encode_varint v)
unfolding varint_size groups
varint_size-encode_varint v h = rw (encode_varint-groups v h) (ground arith)

-- What is written for an `i32` is 1 to 5 bytes.
pub length-encode_varint :
    (v : ℕ) → IsU32 v → (1 ≤ length (encode_varint v)) × (length (encode_varint v) ≤ 5)
unfolding groups
length-encode_varint v h = rw (encode_varint-groups v h) (ground arith)

groups-IsByte : (k v : ℕ) → v < 128 ^ suc k → All IsByte (groups k v)
unfolding groups
groups-IsByte zero v h = omega arith
groups-IsByte (suc k) v h = ground (arith, groups-IsByte k (v / 128) (omega arith))

pub encode_varint-IsByte : (v : ℕ) → IsU32 v → All IsByte (encode_varint v)
encode_varint-IsByte v h = rw (encode_varint-groups v h) (groups-IsByte 4 v (omega arith))
