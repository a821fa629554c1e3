-- ===== src/Codec/SetCompression.antt =====
-- src/network/codec.rs: the SetCompression packet.
use frame_mc.Prelude.{ℕ, ◌≡◌, arith, IsU32}
use frame_mc.Error.{Result, ok}
use frame_mc.Varint.{decode_varint, encode_varint}
use frame_mc.Wire.{◌>>=◌, pure}
use frame_mc.Wire.Laws.{decode_varint_end}
use frame_mc.Packet.{RawPacket, new, decode_as}

pub record SetCompressionPacket : Type 0 where
  pub threshold : ℕ

unfoldable pub encode : SetCompressionPacket → RawPacket
encode packet = new 0x03 (encode_varint packet.threshold)

unfoldable pub decode : RawPacket → Result SetCompressionPacket
decode = decode_as 0x03 (do threshold ← decode_varint; pure (record { threshold = threshold }))

pub decode-encode_set_compression :
    (packet : SetCompressionPacket) → IsU32 packet.threshold → decode (encode packet) ≡ ok packet
unfolding decode encode
decode-encode_set_compression packet h = ground (arith, decode_varint_end packet.threshold h)
