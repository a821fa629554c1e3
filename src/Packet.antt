-- ===== src/Packet.antt =====
-- src/protocol/packet.rs: raw packets, their frame, and the test for protected plugin channels.
pub mod Channels
mod Examples
use frame_mc.Prelude.{ℕ, ◌+◌, List, [], ◌∷◌, ◌++◌, Bool, true, false, not, ◌&&◌, ◌||◌, map, length}
use frame_mc.Prelude.{take, ltb, leb, ◌==◌, if◌then◌else◌, is_negative, as_usize, as_i32, list_eq}
use frame_mc.Error.{Result, ok, err, invalid_packet_id}
use frame_mc.Varint.{decode_varint, encode_varint, varint_size}
use frame_mc.Wire.{ascii, Reader, run}
use frame_mc.Wire.Utf8.{is_utf8}

-- The id is the pattern of an `i32`.
pub record RawPacket : Type 0 where
  pub id : ℕ
  pub payload : List ℕ

abbrev pub new : ℕ → List ℕ → RawPacket
new id payload = record { id = id; payload = payload }

-- `RawPacket::frame`; the capacity that it reserves has no effect on the bytes.
unfoldable pub frame : RawPacket → List ℕ
frame packet =
    let total_length = varint_size packet.id + length packet.payload in
    encode_varint (as_i32 total_length) ++ (encode_varint packet.id ++ packet.payload)

-- `str::to_ascii_lowercase`
abbrev pub lower : ℕ → ℕ
lower b = if leb b'A' b && leb b b'Z' then b + 32 else b

unfoldable pub is_protected_name : List ℕ → Bool
is_protected_name channel =
    let name = map lower channel in
    list_eq name (ascii "velocity:player_info")
    || list_eq name (ascii "bungeecord:main")
    || list_eq name (ascii "bungee:main")
    || list_eq name (ascii "bungeecord")

unfoldable pub is_protected_plugin_channel : RawPacket → Bool
unfolding is_protected_name
is_protected_plugin_channel packet = elim (decode_varint packet.payload) [
  | err e ↦ false
  | ok (len, cursor) ↦
      if (not (is_negative len) && ltb 0 len) && (leb len 128 && leb (as_usize len) (length cursor))
      then is_utf8 (take (as_usize len) cursor) && is_protected_name (take (as_usize len) cursor)
      else false
]

-- A decoder that begins with `if packet.id != id { return Err(InvalidPacketId(packet.id)) }`.
abbrev pub decode_as {ℓ} : {A : Type ℓ} → ℕ → Reader A → RawPacket → Result A
decode_as id m packet =
    if packet.id == id then run m packet.payload else err (invalid_packet_id packet.id)
