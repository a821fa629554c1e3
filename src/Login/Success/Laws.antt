-- ===== src/Login/Success/Laws.antt =====
-- LoginSuccess: what the decoder makes of the encoder's packet in each range of versions.
use frame_mc.Prelude.{ℕ, ◌≡◌, arith, refl, List, [], ◌∷◌, ◌++◌, none, some, length, All, IsShort}
use frame_mc.Prelude.{if◌then◌else◌, as_i32, at_least, true, false}
use frame_mc.Prelude.{◌<◌, take_all, drop_all, length-append}
use frame_mc.Error.{ok, err, io, invalid_data}
use frame_mc.Varint.{encode_varint}
use frame_mc.Varint.RoundTrip.{decode_varint-encode_varint}
use frame_mc.Varint.Bounds.{length-encode_varint}
use frame_mc.Wire.{has_remaining, take_bytes, put_block, IsText}
use frame_mc.Wire.Laws.{take_bytes-append, get_string-put_string, get_string_end}
use frame_mc.Profile.{ProfileProperty, put_properties, IsProperty, IsUuid}
use frame_mc.Profile.{read_properties-put_properties}
use frame_mc.Login.Success.{parse_uuid}
use frame_mc.Login.Success.{LoginSuccessPacket, UuidText, session_or_new, put_session, read_uuid}
use frame_mc.Login.Success.{
  encode_with_version, read_property_list, read_properties_if, read_session,
}
use frame_mc.Login.Success.{read_fields, decode_with_version}

pub record IsLoginSuccess (packet : LoginSuccessPacket) : Type 0 where
  pub uuid : IsUuid packet.uuid
  pub username : IsText packet.username
  pub properties : All IsProperty packet.properties
  pub count : IsShort (length packet.properties)

nonempty_read :
    (v : ℕ) (bytes rest : List ℕ) (props : List ProfileProperty)
    → at_least v 759 ≡ true
    → read_property_list bytes ≡ ok (props, rest)
    → 0 < length bytes
    → read_properties_if v bytes ≡ ok (props, rest)
unfolding read_properties_if
nonempty_read v [] rest props hv e pos = absurd (omega arith)
nonempty_read v (b ∷ bs) rest props hv e pos = ground arith

skipped_read :
    (v : ℕ) (bytes : List ℕ) → at_least v 759 ≡ false → read_properties_if v bytes ≡ ok ([], bytes)
unfolding read_properties_if
skipped_read v [] hv = refl
skipped_read v (b ∷ bs) hv = ground arith

has_remaining_pos : (bytes : List ℕ) → 0 < length bytes → has_remaining bytes ≡ ok (true, bytes)
has_remaining_pos [] h = absurd (omega arith)
has_remaining_pos (b ∷ bs) h = refl

no_session :
    (v : ℕ) (bytes : List ℕ) → at_least v 776 ≡ false → read_session v bytes ≡ ok (none, bytes)
unfolding read_session
no_session v bytes hv = ground arith

module _ (u : UuidText) (packet : LoginSuccessPacket) (v : ℕ) (h : IsLoginSuccess packet) where
  -- What comes back: the session id is the one that was sent, from version 776 on.
  abbrev pub expected : LoginSuccessPacket
  expected = record packet {
    session_id = if at_least v 776 then some (session_or_new u packet.session_id) else none;
  }

  read_list :
      (rest : List ℕ)
      → read_property_list (
          encode_varint (as_i32 (length packet.properties))
          ++ (put_properties packet.properties ++ rest))
        ≡ ok (packet.properties, rest)
  unfolding read_property_list
  read_list rest = ground (
    arith,
    decode_varint-encode_varint (as_i32 (length packet.properties))
        (put_properties packet.properties ++ rest) (omega arith),
    h.count,
    read_properties-put_properties packet.properties rest h.properties,
  )

  read_session_end :
      IsUuid (session_or_new u packet.session_id)
      → read_session v (put_session u packet v) ≡ ok (expected.session_id, [])
  unfolding read_session put_session take_bytes
  read_session_end hs = ground (
    arith,
    take_all 16 (session_or_new u packet.session_id) (omega arith),
    drop_all 16 (session_or_new u packet.session_id) (omega arith),
  )

  read_uuid_raw :
      (rest : List ℕ)
      → at_least v 707 ≡ true
      → read_uuid u v (packet.uuid ++ rest) ≡ ok (packet.uuid, rest)
  unfolding read_uuid
  read_uuid_raw rest hv =
      ground (arith, take_bytes-append packet.uuid rest 16 (omega (arith, h.uuid)))

  abbrev tail : List ℕ
  tail =
      encode_varint (as_i32 (length packet.properties))
      ++ (put_properties packet.properties ++ put_session u packet v)

  tail_pos : 0 < length tail
  tail_pos = omega (
    arith,
    length-append (encode_varint (as_i32 (length packet.properties)))
        (put_properties packet.properties ++ put_session u packet v),
    length-encode_varint (as_i32 (length packet.properties)) (omega arith),
  )

  -- From version 759 on the packet is read back; its session id is the one that was sent, from
  -- version 776 on, and none before. The UUIDs have 16 bytes, and the texts are in UTF-8 and,
  -- like the list of properties, shorter than 2 ^ 31.
  pub decode-encode_success :
      at_least v 759 ≡ true
      → IsUuid (session_or_new u packet.session_id)
      → decode_with_version u (encode_with_version u packet v) v ≡ ok expected
  unfolding decode_with_version encode_with_version read_fields
  decode-encode_success hv hs = ground (
    arith,
    read_uuid_raw (put_block packet.username ++ tail),
    get_string-put_string packet.username tail h.username,
    nonempty_read v tail (put_session u packet v) packet.properties hv
        (read_list (put_session u packet v)) tail_pos,
    read_session_end hs,
  )

  -- In the versions 707 to 758 the encoder writes the property count and the decoder does not
  -- read it: the decoder refuses every well-formed packet of the encoder as one with trailing
  -- data. Well-formed: the UUID has 16 bytes, and the texts are in UTF-8 and, like the list of
  -- properties, shorter than 2 ^ 31.
  pub decode_success_rejects :
      at_least v 707 ≡ true
      → at_least v 759 ≡ false
      → decode_with_version u (encode_with_version u packet v) v ≡ err (io invalid_data)
  unfolding decode_with_version encode_with_version read_fields
  decode_success_rejects low high = ground (
    arith,
    read_uuid_raw (put_block packet.username ++ tail),
    get_string-put_string packet.username tail h.username,
    skipped_read v tail high,
    no_session v tail,
    has_remaining_pos tail tail_pos,
  )

  read_uuid_text :
      (rest : List ℕ)
      → at_least v 707 ≡ false
      → IsText (u.hyphenated packet.uuid)
      → u.parse_str (u.hyphenated packet.uuid) ≡ some packet.uuid
      → read_uuid u v (put_block (u.hyphenated packet.uuid) ++ rest) ≡ ok (packet.uuid, rest)
  unfolding read_uuid parse_uuid
  read_uuid_text rest low text parses =
      ground (arith, get_string-put_string (u.hyphenated packet.uuid) rest text)

  -- Before version 707 the UUID travels as text, and is read back with the name, while properties
  -- and session id are not sent. The text of the UUID is parsed to it, and the texts are in UTF-8
  -- and shorter than 2 ^ 31.
  pub decode-encode_success_legacy :
      at_least v 707 ≡ false
      → IsText (u.hyphenated packet.uuid)
      → u.parse_str (u.hyphenated packet.uuid) ≡ some packet.uuid
      → decode_with_version u (encode_with_version u packet v) v
        ≡ ok (record packet { properties = []; session_id = none })
  unfolding decode_with_version encode_with_version read_fields
  decode-encode_success_legacy low text parses = ground (
    arith,
    read_uuid_text (put_block packet.username) low text parses,
    get_string_end packet.username h.username,
    skipped_read v [],
    no_session v [],
  )
