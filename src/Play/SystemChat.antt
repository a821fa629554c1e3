-- ===== src/Play/SystemChat.antt =====
-- src/routing/state_machine.rs: `SystemChatMessagePacket`, a message that the client shows, as an
-- anonymous NBT compound since version 766 and as a JSON text before it.
pub mod Laws
use frame_mc.Prelude.{
  ℕ, zero, suc, ◌+◌, ◌*◌, List, [], ◌∷◌, ◌++◌, Bool, true, false, not, ◌&&◌, ◌||◌,
}
use frame_mc.Prelude.{
  ◌==◌, ltb, length, take, drop, list_eq, at_least, as_u16, if◌then◌else◌, Option, none, some,
}
use frame_mc.Prelude.{◌≡◌, ◌≤◌}
use frame_mc.Error.{Result, ok, err, io, unexpected_eof, invalid_data, invalid_packet_id}
use frame_mc.Wire.{Reader, put_block, put_u16, get_string, ascii}
use frame_mc.Wire.Utf8.{is_utf8}
use frame_mc.Packet.{RawPacket, new}

-- What serde_json gives: `text_object` is `json!({ "text": message }).to_string()`, and `text_of`
-- parses a text, `none` when it is not JSON, and reads the string at its key `text`, if any.
pub record Json : Type 0 where
  pub text_object : List ℕ → List ℕ
  pub text_of : List ℕ → Option (Option (List ℕ))

-- The printed object is UTF-8, holds at least `{"text":""}`, and is read back.
pub record IsJson (json : Json) : Type 0 where
  pub utf8 : (message : List ℕ) → is_utf8 message ≡ true → is_utf8 (json.text_object message) ≡ true
  pub long : (message : List ℕ) → 11 ≤ length (json.text_object message)
  pub text_of-text_object :
      (message : List ℕ) → json.text_of (json.text_object message) ≡ some (some message)

pub record SystemChatMessagePacket : Type 0 where
  pub message : List ℕ
  pub overlay : Bool

-- `SYSTEM_CHAT_MESSAGE_PACKET_ID`
abbrev pub system_chat_message_packet_id : ℕ
system_chat_message_packet_id = 0x69

unfoldable pub is_valid_system_chat_id : ℕ → Bool
is_valid_system_chat_id id =
    (id == 0x79)
    || (id == 0x78)
    || (id == 0x73)
    || (id == 0x70)
    || (id == 0x6c)
    || (id == 0x67)
    || (id == 0x64)
    || (id == 0x60)
    || (id == 0x5f)
    || (id == 0x69)

unfoldable pub packet_id_for_version : ℕ → ℕ
packet_id_for_version protocol_version =
    if at_least protocol_version 776
    then 0x79
    else if at_least protocol_version 768
    then 0x73
    else if at_least protocol_version 766
    then 0x6c
    else if at_least protocol_version 764
    then system_chat_message_packet_id
    else if protocol_version == 763
    then 0x67
    else if protocol_version == 762
    then 0x64
    else if protocol_version == 761
    then 0x60
    else if at_least protocol_version 759
    then 0x5f
    else system_chat_message_packet_id

abbrev pub flag : Bool → ℕ
flag true = 1
flag false = 0

-- The compound with its one string and the end tag.
unfoldable pub put_compound : List ℕ → List ℕ
put_compound message =
    0x0a ∷ 0x08 ∷ put_u16 4
    ++ (ascii "text" ++ (put_u16 (as_u16 (length message)) ++ (message ++ (0x00 ∷ []))))

-- A text behind a length of two bytes: whether it is whole, its bytes, and where the cursor is left.
unfoldable pub get_counted : List ℕ → Bool × List ℕ × List ℕ
get_counted [] = (false, [], [])
get_counted (a ∷ []) = (false, [], a ∷ [])
get_counted (a ∷ b ∷ cursor) =
    if ltb (length cursor) (a * 256 + b)
    then (false, [], cursor)
    else (true, take (a * 256 + b) cursor, drop (a * 256 + b) cursor)

-- `std::str::from_utf8(bytes).unwrap_or("")`
unfoldable pub utf8_or_empty : List ℕ → List ℕ
utf8_or_empty bytes = if is_utf8 bytes then bytes else []

-- One round of the loop over the tags: whether it goes on, the message, and the cursor.
unfoldable pub read_tag : ℕ → List ℕ → List ℕ → Bool × List ℕ × List ℕ
read_tag tag_type cursor message =
    let key = get_counted cursor in
    let val = get_counted key.2 in
    if tag_type == 0x00
    then (false, message, cursor)
    else if not key.0
    then (false, message, key.2)
    else if not (tag_type == 0x08)
    then (true, message, key.2)
    else if not val.0
    then (false, message, val.2)
    else (
      true,
      (if list_eq (utf8_or_empty key.1) (ascii "text") then utf8_or_empty val.1 else message),
      val.2,
    )

-- `while cursor.has_remaining()`. Every round takes its tag, so as many rounds as there are bytes
-- are enough.
unfoldable pub read_tags : ℕ → List ℕ → List ℕ → List ℕ × List ℕ
read_tags zero cursor message = (message, cursor)
read_tags (suc rounds) [] message = (message, [])
read_tags (suc rounds) (tag_type ∷ cursor) message =
    let s = read_tag tag_type cursor message in
    let rest = read_tags rounds s.2 s.1 in if s.0 then rest else (s.1, s.2)

-- `if cursor.has_remaining() { cursor.get_u8() != 0 } else { false }`
unfoldable pub read_overlay : List ℕ → Bool
read_overlay [] = false
read_overlay (b ∷ cursor) = not (b == 0)

unfoldable pub decode_compound : List ℕ → SystemChatMessagePacket
decode_compound cursor =
    let (message, rest) = read_tags (length cursor) cursor [] in
    record { message = message; overlay = read_overlay rest }

module _ (json : Json) where
  unfoldable pub encode_with_version : SystemChatMessagePacket → ℕ → RawPacket
  encode_with_version packet protocol_version = new (packet_id_for_version protocol_version) (
      (if at_least protocol_version 766
        then put_compound packet.message
        else put_block (json.text_object packet.message))
      ++ (flag packet.overlay ∷ []))

  unfoldable pub encode : SystemChatMessagePacket → RawPacket
  encode packet = encode_with_version packet 765

  -- `parsed.get("text").and_then(|t| t.as_str()).unwrap_or(json_str)`
  unfoldable pub message_of : List ℕ → Result (List ℕ)
  message_of text = elim (json.text_of text) [
    | none ↦ err (io invalid_data)
    | some none ↦ ok text
    | some (some message) ↦ ok message
  ]

  unfoldable pub decode_json : List ℕ → Result SystemChatMessagePacket
  decode_json cursor = elim (get_string cursor) [
    | err e ↦ err e
    | ok (text, rest) ↦ elim (message_of text) [
      | err e ↦ err e
      | ok message ↦ ok (record { message = message; overlay = read_overlay rest })
    ]
  ]

  unfoldable pub decode_payload : List ℕ → Result SystemChatMessagePacket
  decode_payload [] = err (io unexpected_eof)
  decode_payload (b ∷ cursor) =
      if b == 0x0a then ok (decode_compound cursor) else decode_json (b ∷ cursor)

  unfoldable pub decode_with_version : RawPacket → ℕ → Result SystemChatMessagePacket
  decode_with_version packet protocol_version =
      if not (packet.id == packet_id_for_version protocol_version)
        && not (is_valid_system_chat_id packet.id)
      then err (invalid_packet_id packet.id)
      else decode_payload packet.payload

  unfoldable pub decode : RawPacket → Result SystemChatMessagePacket
  decode packet = decode_with_version packet 765
