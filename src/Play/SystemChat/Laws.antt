-- ===== src/Play/SystemChat/Laws.antt =====
-- A chat message is read back from its packet, and the loop over its tags ends.
use frame_mc.Prelude.{
  ℕ, zero, suc, ◌+◌, ◌*◌, ◌/◌, ◌%◌, ◌≤◌, ◌≡◌, refl, arith, List, [], ◌∷◌, ◌++◌, Bool, true, false,
}
use frame_mc.Prelude.{
  length, append_assoc, take_front, drop_front, length-append, length-drop, IsU16, as_u16, as_i32,
  inl, inr, Bool-cases,
}
use frame_mc.Prelude.{at_least}
use frame_mc.Error.{ok}
use frame_mc.Wire.{put_block, put_u16, IsText, ascii}
use frame_mc.Wire.Laws.{get_string-put_string}
use frame_mc.Wire.Utf8.{is_utf8}
use frame_mc.Varint.{encode_varint}
use frame_mc.Varint.Rounds.{groups}
use frame_mc.Varint.RoundTrip.{encode_varint-groups}
use frame_mc.Prelude.{IsShort, ◌≢◌, ltb}
use frame_mc.Play.SystemChat.{
  Json, IsJson, SystemChatMessagePacket, flag, put_compound, get_counted, utf8_or_empty, read_tag,
  read_tags, read_overlay, decode_compound, encode_with_version, message_of, decode_json,
  decode_payload, decode_with_version,
}

get_counted_shrinks : (cursor : List ℕ) → length (get_counted cursor).2 ≤ length cursor
unfolding get_counted
get_counted_shrinks [] = omega arith
get_counted_shrinks (a ∷ []) = omega arith
get_counted_shrinks (a ∷ b ∷ cursor) = ground (arith, length-drop (a * 256 + b) cursor)

read_tag_shrinks :
    (tag_type : ℕ) (cursor message : List ℕ)
    → length (read_tag tag_type cursor message).2 ≤ length cursor
unfolding read_tag
read_tag_shrinks tag_type cursor message =
    ground (arith, get_counted_shrinks cursor, get_counted_shrinks (get_counted cursor).2)

-- Once there are as many rounds as bytes, one more round changes nothing: the loop over the tags
-- has ended by itself.
pub read_tags_ends :
    (rounds : ℕ) (cursor message : List ℕ)
    → length cursor ≤ rounds
    → read_tags (suc rounds) cursor message ≡ read_tags rounds cursor message
unfolding read_tags
read_tags_ends zero [] message h = refl
read_tags_ends zero (t ∷ cursor) message h = absurd (omega arith)
read_tags_ends (suc rounds) [] message h = refl
read_tags_ends (suc rounds) (t ∷ cursor) message h =
    let s = read_tag t cursor message in
    ground (arith, read_tag_shrinks t cursor message, read_tags_ends rounds s.2 s.1)

get_counted_lem :
    (text rest : List ℕ)
    → IsU16 (length text)
    → get_counted (put_u16 (length text) ++ (text ++ rest)) ≡ (true, text, rest)
unfolding get_counted
get_counted_lem text rest h =
    let e : length text / 256 % 256 * 256 + length text % 256 ≡ length text = omega arith in
    rw (e, take_front text rest, drop_front text rest) (ground (arith, length-append text rest))

message_tag :
    (message : List ℕ) (overlay : Bool)
    → is_utf8 message ≡ true
    → IsU16 (length message)
    → read_tag 0x08
        (put_u16 4
          ++ (ascii "text"
              ++ (put_u16 (length message) ++ (message ++ (0x00 ∷ flag overlay ∷ [])))))
        []
      ≡ (true, message, 0x00 ∷ flag overlay ∷ [])
unfolding read_tag utf8_or_empty is_utf8
message_tag message overlay h k =
    let rest : List ℕ = put_u16 (length message) ++ (message ++ (0x00 ∷ flag overlay ∷ [])) in
    let val = get_counted_lem message (0x00 ∷ flag overlay ∷ []) k in
    rw (get_counted_lem (ascii "text") rest (omega arith)) (rw val (rw h refl))

-- A text of eleven bytes or more is never taken for a compound.
encode_varint_head :
    (n : ℕ)
    → 11 ≤ n
    → IsShort n
    → (b : ℕ) × (bs : List ℕ) × (encode_varint (as_i32 n) ≡ b ∷ bs) × (b ≢ 0x0a)
unfolding groups
encode_varint_head n long short =
    let e : as_i32 n ≡ n = omega arith in
    elim (Bool-cases (ltb n 128)) [
      | inl small ↦
          (n, [], rw e (rw (encode_varint-groups n (omega arith)) (rw small refl)), omega arith)
      | inr big ↦ (
        n % 128 + 128,
        groups 3 (n / 128),
        rw e (rw (encode_varint-groups n (omega arith)) (rw big refl)),
        omega arith,
      )
    ]

module _ (json : Json) where
  decode_compound_lem :
      (message : List ℕ) (overlay : Bool)
      → is_utf8 message ≡ true
      → IsU16 (length message)
      → decode_payload json (put_compound message ++ (flag overlay ∷ []))
        ≡ ok (record { message = message; overlay = overlay })
  unfolding decode_payload decode_compound read_tags read_tag read_overlay put_compound
  decode_compound_lem message overlay h k =
      let e : as_u16 (length message) ≡ length message = omega arith in
      rw (e, append_assoc, message_tag message overlay h k) (ground arith)

  decode_json_lem :
      IsJson json
      → (message : List ℕ) (overlay : Bool) → is_utf8 message ≡ true
      → IsShort (length (json.text_object message))
      → decode_payload json (put_block (json.text_object message) ++ (flag overlay ∷ []))
        ≡ ok (record { message = message; overlay = overlay })
  unfolding decode_payload decode_json read_overlay message_of put_block
  decode_json_lem law message overlay h k =
      let text = json.text_object message in
      let is_text : IsText text = record { utf8 = law.utf8 message h; short = k } in
      let head = encode_varint_head (length text) (law.long message) k in
      rw head.2 (
        ground (
          arith,
          rw head.2 at (get_string-put_string text (flag overlay ∷ []) is_text),
          law.text_of-text_object message,
          head.3,
        ))

  -- In every version, a message in UTF-8 is read back from its packet: since version 766 one below
  -- 65,536 bytes, before it one whose JSON text is below 2 ^ 31 bytes.
  pub decode-encode_chat :
      IsJson json
      → (packet : SystemChatMessagePacket) (v : ℕ) → is_utf8 packet.message ≡ true
      → (at_least v 766 ≡ true → IsU16 (length packet.message))
      → (at_least v 766 ≡ false → IsShort (length (json.text_object packet.message)))
      → decode_with_version json (encode_with_version json packet v) v ≡ ok packet
  unfolding decode_with_version encode_with_version
  decode-encode_chat law packet v text short json_short = elim (Bool-cases (at_least v 766)) [
    | inl modern ↦
        ground (arith, decode_compound_lem packet.message packet.overlay text (short modern))
    | inr legacy ↦
        ground (arith, decode_json_lem law packet.message packet.overlay text (json_short legacy))
  ]
