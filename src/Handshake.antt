-- ===== src/Handshake.antt =====
-- src/protocol/handshake.rs: the states of a connection and the Handshake packet.
pub mod Laws
mod Examples
use frame_mc.Prelude.{ℕ, ◌+◌, ◌≡◌, List, [], ◌∷◌, ◌++◌, length, ltb, ◌==◌, if◌then◌else◌}
use frame_mc.Prelude.{is_negative, as_usize}
use frame_mc.Error.{Result, io, invalid_data, unexpected_eof, invalid_connection_state}
use frame_mc.Varint.{decode_varint, encode_varint}
use frame_mc.Wire.{Reader, ◌>>=◌, ◌>>◌, pure, fail, refuse_if, take_bytes, from_utf8, get_u16}
use frame_mc.Wire.{put_block, put_u16}
use frame_mc.Packet.{RawPacket, new, decode_as}

pub data ConnectionState : Type 0 where
  handshake status login configuration play closed : ConnectionState

pub record HandshakePacket : Type 0 where
  pub protocol_version : ℕ
  pub server_address : List ℕ
  pub server_port : ℕ
  pub next_state : ConnectionState

-- The `match next_state_raw`.
unfoldable pub read_next_state : ℕ → Reader ConnectionState
read_next_state raw =
    if raw == 1
    then pure status
    else if raw == 2
    then pure login
    else fail (invalid_connection_state raw)

unfoldable pub read_fields : Reader HandshakePacket
read_fields = do
  protocol_version ← decode_varint
  addr_len ← decode_varint
  refuse_if (is_negative addr_len) (io invalid_data)
  addr_bytes ← take_bytes (as_usize addr_len)
  server_address ← from_utf8 addr_bytes
  server_port ← get_u16
  next_state_raw ← decode_varint
  next_state ← read_next_state next_state_raw
  pure (record {
    protocol_version = protocol_version;
    server_address = server_address;
    server_port = server_port;
    next_state = next_state;
  })

unfoldable pub decode : RawPacket → Result HandshakePacket
decode = decode_as 0x00 read_fields

unfoldable pub next_state_val : ConnectionState → ℕ
next_state_val status = 1
next_state_val login = 2
next_state_val _ = 0

unfoldable pub encode : HandshakePacket → RawPacket
encode packet = new 0x00 (
    encode_varint packet.protocol_version
    ++ (put_block packet.server_address
        ++ (put_u16 packet.server_port ++ encode_varint (next_state_val packet.next_state))))

-- `server_address.split('\0').next()`: what stands before the first zero byte.
unfoldable pub until_zero : List ℕ → List ℕ
until_zero [] = []
until_zero (b ∷ bs) = if b == 0 then [] else b ∷ until_zero bs

unfoldable pub clean_hostname : HandshakePacket → List ℕ
clean_hostname packet = until_zero packet.server_address
