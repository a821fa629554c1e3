-- ===== src/Forwarding/PluginRequest.antt =====
-- src/protocol/forwarding.rs: the LoginPluginRequest packet. Its field `data` is `contents` here.
use frame_mc.Prelude.{ℕ, ◌≡◌, arith, List, ◌++◌, IsU32}
use frame_mc.Error.{Result, ok}
use frame_mc.Varint.{decode_varint, encode_varint}
use frame_mc.Varint.RoundTrip.{decode_varint-encode_varint}
use frame_mc.Wire.{Reader, ◌>>=◌, pure, take_rest, get_string, put_block, IsText}
use frame_mc.Wire.Laws.{get_string-put_string}
use frame_mc.Packet.{RawPacket, new, decode_as}

pub record LoginPluginRequestPacket : Type 0 where
  pub message_id : ℕ
  pub channel : List ℕ
  pub contents : List ℕ

unfoldable pub encode : LoginPluginRequestPacket → RawPacket
encode packet =
    new 0x04 (encode_varint packet.message_id ++ (put_block packet.channel ++ packet.contents))

unfoldable pub read_fields : Reader LoginPluginRequestPacket
read_fields = do
  message_id ← decode_varint
  channel ← get_string
  contents ← take_rest
  pure (record { message_id = message_id; channel = channel; contents = contents })

unfoldable pub decode : RawPacket → Result LoginPluginRequestPacket
decode = decode_as 0x04 read_fields

-- A request is read back, whatever its contents, for an id that is an `i32` and a channel in
-- UTF-8 that is shorter than 2 ^ 31.
pub decode-encode_plugin_request :
    (packet : LoginPluginRequestPacket)
    → IsU32 packet.message_id
    → IsText packet.channel
    → decode (encode packet) ≡ ok packet
unfolding decode encode read_fields
decode-encode_plugin_request packet hm hc = ground (
  arith,
  decode_varint-encode_varint packet.message_id (put_block packet.channel ++ packet.contents) hm,
  get_string-put_string packet.channel packet.contents hc,
)
