-- ===== src/Login/EncryptionResponse.antt =====
-- src/protocol/login.rs: the EncryptionResponse packet.
use frame_mc.Prelude.{ℕ, ◌≡◌, arith, List, ◌++◌, length, IsShort}
use frame_mc.Error.{Result, ok}
use frame_mc.Wire.{Reader, ◌>>=◌, pure, get_block, put_block}
use frame_mc.Wire.Laws.{get_block-put_block, get_block_end}
use frame_mc.Packet.{RawPacket, new, decode_as}

pub record EncryptionResponsePacket : Type 0 where
  pub shared_secret : List ℕ
  pub verify_token : List ℕ

unfoldable pub encode : EncryptionResponsePacket → RawPacket
encode packet = new 0x01 (put_block packet.shared_secret ++ put_block packet.verify_token)

unfoldable pub read_fields : Reader EncryptionResponsePacket
read_fields = do
  shared_secret ← get_block
  verify_token ← get_block
  pure (record { shared_secret = shared_secret; verify_token = verify_token })

unfoldable pub decode : RawPacket → Result EncryptionResponsePacket
decode = decode_as 0x01 read_fields

-- A response whose two byte strings are short enough for an `i32` length is read back.
pub decode-encode_response :
    (packet : EncryptionResponsePacket)
    → IsShort (length packet.shared_secret)
    → IsShort (length packet.verify_token)
    → decode (encode packet) ≡ ok packet
unfolding decode encode read_fields
decode-encode_response packet hs ht = ground (
  arith,
  get_block-put_block packet.shared_secret (put_block packet.verify_token) hs,
  get_block_end packet.verify_token ht,
)
