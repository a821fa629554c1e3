-- ===== src/Login/Acknowledged.antt =====
-- src/protocol/login.rs: the LoginAcknowledged packet.
use frame_mc.Prelude.{[]}
use frame_mc.Error.{Result}
use frame_mc.Wire.{pure}
use frame_mc.Packet.{RawPacket, new, decode_as}

pub data LoginAcknowledgedPacket : Type 0 where
  login_acknowledged : LoginAcknowledgedPacket

unfoldable pub decode : RawPacket → Result LoginAcknowledgedPacket
decode = decode_as 0x03 (pure login_acknowledged)

unfoldable pub encode : LoginAcknowledgedPacket → RawPacket
encode packet = new 0x03 []
