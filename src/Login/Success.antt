-- ===== src/Login/Success.antt =====
-- src/protocol/login.rs: the LoginSuccess packet, with the version differences of its fields.
pub mod Laws
use frame_mc.Prelude.{ℕ, ◌+◌, ◌≡◌, List, [], ◌∷◌, ◌++◌, Option, none, some, ◌==◌, length}
use frame_mc.Prelude.{
  if◌then◌else◌, as_i32, is_negative, at_least, as_usize, ltb, Bool, true, false,
}
use frame_mc.Error.{Result, ok, err, io, invalid_data, unexpected_eof, invalid_packet_id}
use frame_mc.Varint.{decode_varint, encode_varint, varint_size}
use frame_mc.Wire.{
  Reader, ◌>>=◌, ◌>>◌, pure, refuse_if, take_bytes, has_remaining, get_string, put_block,
}
use frame_mc.Packet.{RawPacket, new, decode_as, frame}
use frame_mc.Profile.{ProfileProperty, put_properties, read_properties}

pub record LoginSuccessPacket : Type 0 where
  pub uuid : List ℕ
  pub username : List ℕ
  pub properties : List ProfileProperty
  pub session_id : Option (List ℕ)

-- What the `uuid` crate gives: the hyphenated form, its parser, and a random UUID.
pub record UuidText : Type 0 where
  pub hyphenated : List ℕ → List ℕ
  pub parse_str : List ℕ → Option (List ℕ)
  pub new_v4 : List ℕ

-- Part 3: from version 759 on, and only if something is left.
unfoldable pub read_property_list : Reader (List ProfileProperty)
read_property_list = do
  prop_count ← decode_varint
  refuse_if (is_negative prop_count) (io invalid_data)
  read_properties prop_count

unfoldable pub read_properties_if : ℕ → Reader (List ProfileProperty)
read_properties_if protocol_version [] = ok ([], [])
read_properties_if protocol_version (b ∷ bs) =
    if at_least protocol_version 759 then read_property_list (b ∷ bs) else ok ([], b ∷ bs)

-- Part 4: exactly 16 bytes from version 776 on.
unfoldable pub read_session : ℕ → Reader (Option (List ℕ))
read_session protocol_version =
    if at_least protocol_version 776 then (do sid ← take_bytes 16; pure (some sid)) else pure none

module _ (u : UuidText) where
  -- `self.session_id.unwrap_or_else(Uuid::new_v4)`
  abbrev pub session_or_new : Option (List ℕ) → List ℕ
  session_or_new none = u.new_v4
  session_or_new (some sid) = sid

  unfoldable pub put_session : LoginSuccessPacket → ℕ → List ℕ
  put_session packet protocol_version =
      if at_least protocol_version 776 then session_or_new packet.session_id else []

  unfoldable pub encode_with_version : LoginSuccessPacket → ℕ → RawPacket
  encode_with_version packet protocol_version =
      if at_least protocol_version 707
      then new 0x02 (
          packet.uuid
          ++ (put_block packet.username
              ++ (encode_varint (as_i32 (length packet.properties))
                  ++ (put_properties packet.properties ++ put_session packet protocol_version))))
      else new 0x02 (put_block (u.hyphenated packet.uuid) ++ put_block packet.username)

  -- `encode_frame_with_version`
  unfoldable pub encode_frame_with_version : LoginSuccessPacket → ℕ → List ℕ
  encode_frame_with_version packet protocol_version =
      frame (encode_with_version packet protocol_version)

  unfoldable pub parse_uuid : List ℕ → Reader (List ℕ)
  parse_uuid text cursor = elim (u.parse_str text) [
    | some id ↦ ok (id, cursor)
    | none ↦ err (io invalid_data)
  ]

  -- Part 1: 16 raw bytes from version 707 on, the text of the UUID before.
  unfoldable pub read_uuid : ℕ → Reader (List ℕ)
  read_uuid protocol_version =
      if at_least protocol_version 707
      then take_bytes 16
      else (do text ← get_string; parse_uuid text)

  unfoldable pub read_fields : ℕ → Reader LoginSuccessPacket
  read_fields protocol_version = do
    uuid ← read_uuid protocol_version
    username ← get_string
    properties ← read_properties_if protocol_version
    session_id ← read_session protocol_version
    trailing ← has_remaining
    refuse_if trailing (io invalid_data)
    pure (record {
      uuid = uuid;
      username = username;
      properties = properties;
      session_id = session_id;
    })

  unfoldable pub decode_with_version : RawPacket → ℕ → Result LoginSuccessPacket
  decode_with_version packet protocol_version = decode_as 0x02 (read_fields protocol_version) packet

  -- `decode_frame_with_version`: a negative length is a huge `usize`.
  unfoldable pub decode_frame_with_version : List ℕ → ℕ → Result LoginSuccessPacket
  decode_frame_with_version bytes protocol_version = elim (decode_varint bytes) [
    | err e ↦ err e
    | ok (total_length, cursor) ↦
        if ltb (length cursor) (as_usize total_length)
        then err (io unexpected_eof)
        else elim (decode_varint cursor) [
          | err e ↦ err e
          | ok (packet_id, rest) ↦
              if packet_id == 0x02
              then decode_with_version (new packet_id rest) protocol_version
              else err (invalid_packet_id packet_id)
        ]
  ]
