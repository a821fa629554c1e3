-- ===== src/Login/Start.antt =====
-- src/protocol/login.rs: the LoginStart packet.
use frame_mc.Prelude.{ℕ, ◌<◌, ◌≤◌, ◌≡◌, arith, List, [], ◌∷◌, ◌++◌, Bool, true}
use frame_mc.Prelude.{◌&&◌, ◌||◌, not, leb, ◌==◌, if◌then◌else◌, length, take, drop, All, at_least}
use frame_mc.Prelude.{as_usize, as_i32, append_assoc, take_all, drop_all, length-take}
use frame_mc.Prelude.{inl, inr}
use frame_mc.Error.{Result, Result-cases, ok, io, invalid_data}
use frame_mc.Varint.{decode_varint}
use frame_mc.Varint.RoundTrip.{decode_varint-encode_varint}
use frame_mc.Wire.{Reader, ◌>>=◌, ◌>>◌, pure, refuse_if, take_bytes, from_utf8, put_block, IsText}
use frame_mc.Wire.Utf8.{ascii-is_utf8}
use frame_mc.Wire.Laws.{take_bytes-append, from_utf8_lem, take_bytes_lem, from_utf8_same}
use frame_mc.Packet.{RawPacket, new, decode_as}
use frame_mc.Profile.{IsUuid}

pub record LoginStartPacket : Type 0 where
  pub username : List ℕ
  pub player_uuid : List ℕ

-- `b.is_ascii_alphanumeric() || b == b'_'`
unfoldable pub is_name_char : ℕ → Bool
is_name_char b =
    (leb b'0' b && leb b b'9')
    || (leb b'A' b && leb b b'Z')
    || (leb b'a' b && leb b b'z')
    || (b == b'_')

unfoldable pub all_name_chars : List ℕ → Bool
all_name_chars [] = true
all_name_chars (b ∷ bs) = is_name_char b && all_name_chars bs

-- `Uuid::nil()`
abbrev pub nil_uuid : List ℕ
nil_uuid = 0 ∷ 0 ∷ 0 ∷ 0 ∷ 0 ∷ 0 ∷ 0 ∷ 0 ∷ 0 ∷ 0 ∷ 0 ∷ 0 ∷ 0 ∷ 0 ∷ 0 ∷ 0 ∷ []

-- The UUID, if there are 16 bytes left for it.
unfoldable pub read_uuid_or_nil : Reader (List ℕ)
read_uuid_or_nil cursor =
    if leb 16 (length cursor) then ok (take 16 cursor, drop 16 cursor) else ok (nil_uuid, cursor)

unfoldable pub read_fields : Reader LoginStartPacket
read_fields = do
  name_len ← decode_varint
  refuse_if (not (at_least name_len 1 && leb name_len 16)) (io invalid_data)
  name_bytes ← take_bytes (as_usize name_len)
  refuse_if (not (all_name_chars name_bytes)) (io invalid_data)
  username ← from_utf8 name_bytes
  player_uuid ← read_uuid_or_nil
  pure (record { username = username; player_uuid = player_uuid })

unfoldable pub decode : RawPacket → Result LoginStartPacket
decode = decode_as 0x00 read_fields

unfoldable pub encode : LoginStartPacket → RawPacket
encode packet = new 0x00 (put_block packet.username ++ packet.player_uuid)

-- A name that the proxy lets in: 1 to 16 letters, digits and underscores.
pub record IsUsername (name : List ℕ) : Type 0 where
  pub chars : all_name_chars name ≡ true
  pub lower : 1 ≤ length name
  pub upper : length name ≤ 16

name_char-lt : (b : ℕ) → is_name_char b ≡ true → b < 128
unfolding is_name_char
name_char-lt b h = ground arith

name_chars_ascii : (bs : List ℕ) → all_name_chars bs ≡ true → All (λ b. b < 128) bs
unfolding all_name_chars
name_chars_ascii [] h = tt
name_chars_ascii (b ∷ bs) h = (name_char-lt b (ground arith), name_chars_ascii bs (ground arith))

username-IsText : (name : List ℕ) → IsUsername name → IsText name
username-IsText name h = record {
  utf8 = ascii-is_utf8 name (name_chars_ascii name h.chars);
  short = omega (arith, h.upper);
}

read_uuid_end : (id : List ℕ) → IsUuid id → read_uuid_or_nil id ≡ ok (id, [])
unfolding read_uuid_or_nil
read_uuid_end id h = ground (arith, take_all 16 id (omega arith), drop_all 16 id (omega arith))

-- The login of a name of 1 to 16 letters, digits and underscores is read back, its UUID of 16
-- bytes included.
pub decode-encode_start :
    (packet : LoginStartPacket)
    → IsUsername packet.username
    → IsUuid packet.player_uuid
    → decode (encode packet) ≡ ok packet
unfolding decode encode read_fields put_block
decode-encode_start packet h hid = rw append_assoc (
    ground (
      arith,
      decode_varint-encode_varint (as_i32 (length packet.username))
          (packet.username ++ packet.player_uuid) (omega arith),
      take_bytes-append packet.username packet.player_uuid
          (as_usize (as_i32 (length packet.username))),
      from_utf8_lem packet.username packet.player_uuid (username-IsText packet.username h),
      h.chars,
      h.lower,
      h.upper,
      read_uuid_end packet.player_uuid hid,
    ))

read_uuid_whole : (cursor id rest : List ℕ) → read_uuid_or_nil cursor ≡ ok (id, rest) → IsUuid id
unfolding read_uuid_or_nil
read_uuid_whole cursor id rest e = ground (arith, length-take 16 cursor)

-- Whatever a client sends: a login that is accepted has a well-formed name and a whole UUID.
pub decode_start-IsUsername :
    (raw : RawPacket) (packet : LoginStartPacket)
    → decode raw ≡ ok packet
    → IsUsername packet.username × IsUuid packet.player_uuid
unfolding decode read_fields
decode_start-IsUsername raw packet e = elim (Result-cases (decode_varint raw.payload)) [
  | inr (x, h) ↦ ground arith
  | inl ((n, mid), h) ↦ elim (Result-cases (take_bytes (as_usize n) mid)) [
    | inr (x, t) ↦ ground arith
    | inl ((bs, after), t) ↦ elim (Result-cases (from_utf8 bs after)) [
      | inr (x, u) ↦ ground arith
      | inl ((s, behind), u) ↦ elim (Result-cases (read_uuid_or_nil behind)) [
        | inr (x, v) ↦ ground arith
        | inl ((id, rest), v) ↦ ground (
          arith,
          take_bytes_lem (as_usize n) mid bs after t,
          from_utf8_same bs after s behind u,
          read_uuid_whole behind id rest v,
        )
      ]
    ]
  ]
]
