-- ===== src/Forwarding/PluginResponse.antt =====
-- src/protocol/forwarding.rs: the LoginPluginResponse packet. Its field `data` is `contents` here.
use frame_mc.Prelude.{Bool-cases, inl, inr}
use frame_mc.Prelude.{
  ℕ, ◌≡◌, arith, List, [], ◌∷◌, ◌++◌, IsU32, Bool, true, false, if◌then◌else◌, not, ◌==◌,
}
use frame_mc.Error.{Result, ok}
use frame_mc.Varint.{decode_varint, encode_varint}
use frame_mc.Varint.RoundTrip.{decode_varint-encode_varint}
use frame_mc.Wire.{Reader, ◌>>=◌, pure, get_u8}
use frame_mc.Packet.{RawPacket, new, decode_as}

pub record LoginPluginResponsePacket : Type 0 where
  pub message_id : ℕ
  pub successful : Bool
  pub contents : List ℕ

unfoldable pub encode : LoginPluginResponsePacket → RawPacket
encode packet = new 0x02 (
    encode_varint packet.message_id
    ++ ((if packet.successful then 1 else 0) ∷ (if packet.successful then packet.contents else [])))

-- The data, only behind a flag that is set.
unfoldable pub read_contents : Bool → Reader (List ℕ)
read_contents true cursor = ok (cursor, [])
read_contents false cursor = ok ([], cursor)

unfoldable pub read_fields : Reader LoginPluginResponsePacket
read_fields = do
  message_id ← decode_varint
  flag ← get_u8
  contents ← read_contents (not (flag == 0))
  pure (record { message_id = message_id; successful = not (flag == 0); contents = contents })

unfoldable pub decode : RawPacket → Result LoginPluginResponsePacket
decode = decode_as 0x02 read_fields

-- A response whose id is an `i32` is read back; one that is not successful loses its data on the
-- wire.
pub decode-encode_plugin_response :
    (packet : LoginPluginResponsePacket)
    → IsU32 packet.message_id
    → decode (encode packet)
      ≡ ok (record packet { contents = if packet.successful then packet.contents else [] })
unfolding decode encode read_fields read_contents
decode-encode_plugin_response packet h = elim (Bool-cases packet.successful) [
  | inl set ↦
      rw set (ground (arith, decode_varint-encode_varint packet.message_id (1 ∷ packet.contents) h))
  | inr unset ↦ rw unset (ground (arith, decode_varint-encode_varint packet.message_id (0 ∷ []) h))
]
