-- ===== src/Forwarding/Payload.antt =====
-- src/protocol/forwarding.rs: the data that Velocity and BungeeCord forwarding send, and the
-- reading of it by a backend.
use frame_mc.Prelude.{ℕ, ◌≡◌, arith, List, [], ◌∷◌, ◌++◌, Option, none, some, length, All}
use frame_mc.Prelude.{IsShort, as_i32, append-nil}
use frame_mc.Error.{Result, ok, err, crypto_error, config_error}
use frame_mc.Varint.{decode_varint, encode_varint}
use frame_mc.Varint.RoundTrip.{decode_varint-encode_varint}
use frame_mc.Wire.{Reader, ◌>>=◌, pure, get_string, take_bytes, put_block, IsText, ascii}
use frame_mc.Wire.Laws.{get_string-put_string, take_bytes-append}
use frame_mc.Profile.{PlayerProfile, ProfileProperty, put_properties, read_properties, IsProperty}
use frame_mc.Profile.{IsUuid, read_properties-put_properties}

-- `VELOCITY_FORWARDING_CHANNEL`, `VELOCITY_FORWARDING_VERSION`
abbrev pub velocity_forwarding_channel : List ℕ
velocity_forwarding_channel = ascii "velocity:player_info"

abbrev pub velocity_forwarding_version : ℕ
velocity_forwarding_version = 4

unfoldable pub create_velocity_forwarding_payload : PlayerProfile → List ℕ → List ℕ
create_velocity_forwarding_payload profile client_ip =
    encode_varint velocity_forwarding_version
    ++ (put_block client_ip
        ++ (profile.id
            ++ (put_block profile.name
                ++ (encode_varint (as_i32 (length profile.properties))
                    ++ put_properties profile.properties))))

-- What the code takes from the crates hmac, uuid and serde_json: the HMAC-SHA256 of a key and a
-- text (`none` where the key is refused), the UUID without hyphens, and the properties as JSON.
pub record Crates : Type 0 where
  pub hmac_sha256 : List ℕ → List ℕ → Option (List ℕ)
  pub simple : List ℕ → List ℕ
  pub properties_json : List ProfileProperty → Option (List ℕ)

module _ (c : Crates) where
  unfoldable pub calculate_velocity_hmac : List ℕ → List ℕ → Result (List ℕ)
  calculate_velocity_hmac secret payload = elim (c.hmac_sha256 secret payload) [
    | some mac ↦ ok mac
    | none ↦ err crypto_error
  ]

  unfoldable pub create_velocity_response_data : List ℕ → PlayerProfile → List ℕ → Result (List ℕ)
  create_velocity_response_data secret profile client_ip =
      let payload = create_velocity_forwarding_payload profile client_ip in
      elim (calculate_velocity_hmac secret payload) [ ok mac ↦ ok (mac ++ payload) | err e ↦ err e ]

  -- The four parts, with a zero byte between each two.
  unfoldable pub create_bungeecord_handshake_address :
      List ℕ → List ℕ → PlayerProfile → Result (List ℕ)
  create_bungeecord_handshake_address target_host client_ip profile =
      elim (c.properties_json profile.properties) [
        | none ↦ err config_error
        | some json ↦ ok (target_host ++ (0 ∷ client_ip ++ (0 ∷ c.simple profile.id ++ (0 ∷ json))))
      ]

-- How a backend reads the payload: version, address, profile.
unfoldable pub read_payload : Reader (ℕ × List ℕ × PlayerProfile)
read_payload = do
  version ← decode_varint
  client_ip ← get_string
  id ← take_bytes 16
  name ← get_string
  count ← decode_varint
  properties ← read_properties count
  pure (version, client_ip, record { id = id; name = name; properties = properties })

pub record IsProfile (profile : PlayerProfile) : Type 0 where
  pub id : IsUuid profile.id
  pub name : IsText profile.name
  pub properties : All IsProperty profile.properties
  pub count : IsShort (length profile.properties)

-- A backend that reads the payload gets version 4, the client's address and the whole profile,
-- and nothing is left. The UUID has 16 bytes, and the texts are in UTF-8 and, like the list of
-- properties, shorter than 2 ^ 31.
pub read_payload-create :
    (profile : PlayerProfile) (client_ip : List ℕ)
    → IsProfile profile
    → IsText client_ip
    → read_payload (create_velocity_forwarding_payload profile client_ip)
      ≡ ok ((velocity_forwarding_version, client_ip, profile), [])
unfolding read_payload create_velocity_forwarding_payload
read_payload-create profile client_ip h hip =
    let counted : List ℕ =
      encode_varint (as_i32 (length profile.properties)) ++ put_properties profile.properties in
    ground (
      arith,
      decode_varint-encode_varint velocity_forwarding_version
          (put_block client_ip ++ (profile.id ++ (put_block profile.name ++ counted)))
          (omega arith),
      get_string-put_string client_ip (profile.id ++ (put_block profile.name ++ counted)) hip,
      take_bytes-append profile.id (put_block profile.name ++ counted) 16 (omega (arith, h.id)),
      get_string-put_string profile.name counted h.name,
      decode_varint-encode_varint (as_i32 (length profile.properties))
          (put_properties profile.properties) (omega arith),
      h.count,
      read_properties_end,
    )
  where
    read_properties_end :
        read_properties (length profile.properties) (put_properties profile.properties)
        ≡ ok (profile.properties, [])
    read_properties_end =
        rw append-nil at (read_properties-put_properties profile.properties [] h.properties)
