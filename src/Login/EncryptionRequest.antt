-- ===== src/Login/EncryptionRequest.antt =====
-- src/protocol/login.rs: the EncryptionRequest packet.
use frame_mc.Prelude.{ℕ, ◌≡◌, arith, List, [], ◌∷◌, ◌++◌, Bool, true, not, ◌==◌, at_least}
use frame_mc.Prelude.{if◌then◌else◌, length, IsShort}
use frame_mc.Error.{Result, ok}
use frame_mc.Wire.{Reader, ◌>>=◌, pure, get_block, get_string, put_block, IsText}
use frame_mc.Wire.Laws.{get_string-put_string, get_block-put_block}
use frame_mc.Packet.{RawPacket, new, decode_as}

pub record EncryptionRequestPacket : Type 0 where
  pub server_id : List ℕ
  pub public_key : List ℕ
  pub verify_token : List ℕ
  pub should_authenticate : Bool

-- `generate`, with the four random bytes given.
unfoldable pub generate : List ℕ → List ℕ → EncryptionRequestPacket
generate public_key_der random_token = record {
  server_id = [];
  public_key = public_key_der;
  verify_token = random_token;
  should_authenticate = true;
}

unfoldable pub put_flag : EncryptionRequestPacket → ℕ → List ℕ
put_flag packet protocol_version =
    if at_least protocol_version 766 then (if packet.should_authenticate then 1 else 0) ∷ [] else []

unfoldable pub encode_with_version : EncryptionRequestPacket → ℕ → RawPacket
encode_with_version packet protocol_version = new 0x01 (
    put_block packet.server_id
    ++ (put_block packet.public_key
        ++ (put_block packet.verify_token ++ put_flag packet protocol_version)))

unfoldable pub encode : EncryptionRequestPacket → RawPacket
encode packet = encode_with_version packet 765

unfoldable pub read_flag : Reader Bool
read_flag [] = ok (true, [])
read_flag (b ∷ bs) = ok (not (b == 0), bs)

unfoldable pub read_fields : Reader EncryptionRequestPacket
read_fields = do
  server_id ← get_string
  public_key ← get_block
  verify_token ← get_block
  should_authenticate ← read_flag
  pure (record {
    server_id = server_id;
    public_key = public_key;
    verify_token = verify_token;
    should_authenticate = should_authenticate;
  })

unfoldable pub decode : RawPacket → Result EncryptionRequestPacket
decode = decode_as 0x01 read_fields

pub record IsRequest (packet : EncryptionRequestPacket) : Type 0 where
  pub server_id : IsText packet.server_id
  pub public_key : IsShort (length packet.public_key)
  pub verify_token : IsShort (length packet.verify_token)

read_flag-put_flag :
    (packet : EncryptionRequestPacket) (v : ℕ)
    → read_flag (put_flag packet v)
      ≡ ok ((if at_least v 766 then packet.should_authenticate else true), [])
unfolding read_flag put_flag
read_flag-put_flag packet v = ground arith

-- The request is read back in every version; before 766 the flag is not sent, and is read as set.
-- The server id is in UTF-8, and all three fields are shorter than 2 ^ 31.
pub decode-encode_request :
    (packet : EncryptionRequestPacket) (v : ℕ)
    → IsRequest packet
    → decode (encode_with_version packet v)
      ≡ ok (record packet {
        should_authenticate = if at_least v 766 then packet.should_authenticate else true;
      })
unfolding decode encode_with_version read_fields
decode-encode_request packet v h =
    let flag : List ℕ = put_flag packet v in
    ground (
      arith,
      get_string-put_string packet.server_id
          (put_block packet.public_key ++ (put_block packet.verify_token ++ flag)) h.server_id,
      get_block-put_block packet.public_key (put_block packet.verify_token ++ flag) h.public_key,
      get_block-put_block packet.verify_token flag h.verify_token,
      read_flag-put_flag packet v,
    )
