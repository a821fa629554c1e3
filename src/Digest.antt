-- ===== src/Digest.antt =====
-- src/crypto/mojang_auth.rs: the digest that the session server expects.
pub mod Signed
mod Examples
use frame_mc.Prelude.{
  ℕ, ◌+◌, ◌-◌, ◌%◌, List, [], ◌∷◌, ◌++◌, Bool, true, false, not, bit_and, ◌==◌, if◌then◌else◌,
}
use frame_mc.Wire.{ascii}
use frame_mc.Profile.{PlayerProfile}

-- What the crates sha1, hex and uuid give: the 20 bytes of a hash, the two hexadecimal digits of each
-- byte, and the name-based UUID in the OID namespace.
pub record Digests : Type 0 where
  pub sha1 : List ℕ → List ℕ
  pub hex_encode : List ℕ → List ℕ
  pub new_v3_oid : List ℕ → List ℕ

-- `for byte in hash.iter_mut().rev()`: the last byte first. The Boolean is the carry that goes on to
-- the byte before.
unfoldable pub negate : List ℕ → List ℕ × Bool
negate [] = ([], true)
negate (byte ∷ bytes) =
    let (rest, carry) = negate bytes in
    let inverted = 255 - byte in
    if carry then (((inverted + 1) % 256 ∷ rest), inverted == 255) else ((inverted ∷ rest), false)

-- `trim_start_matches('0')`
unfoldable pub trim_zeros : List ℕ → List ℕ
trim_zeros [] = []
trim_zeros (ch ∷ chs) = if ch == b'0' then trim_zeros chs else ch ∷ chs

unfoldable pub or_zero : List ℕ → List ℕ
or_zero [] = b'0' ∷ []
or_zero (ch ∷ chs) = ch ∷ chs

unfoldable pub is_negative_hash : List ℕ → Bool
is_negative_hash [] = false
is_negative_hash (byte ∷ bytes) = not (bit_and byte 0x80 == 0)

module _ (d : Digests) where
  unfoldable pub signed_hex : List ℕ → List ℕ
  signed_hex hash =
      if is_negative_hash hash
      then b'-' ∷ or_zero (trim_zeros (d.hex_encode (negate hash).0))
      else or_zero (trim_zeros (d.hex_encode hash))

  unfoldable pub mojang_sha1_digest : List ℕ → List ℕ → List ℕ → List ℕ
  mojang_sha1_digest server_id shared_secret public_key_der =
      signed_hex (d.sha1 (server_id ++ (shared_secret ++ public_key_der)))

  unfoldable pub offline_profile : List ℕ → PlayerProfile
  offline_profile username = record {
    id = d.new_v3_oid (ascii "OfflinePlayer:" ++ username);
    name = username;
    properties = [];
  }
