-- ===== src/Listener.antt =====
-- src/network/listener.rs: the authentication of a player, up to the LoginSuccess. The stream comes in
-- plain, as `process_connection` makes it.
pub mod Compare
pub mod Laws
mod Examples
use frame_mc.Prelude.{
  ℕ, zero, List, [], ◌∷◌, ◌++◌, Bool, true, false, not, ◌==◌, Option, none, some,
}
use frame_mc.Prelude.{length, at_least, if◌then◌else◌}
use Prim.Native.Nat.{bit_or, bit_xor}
use frame_mc.Error.{Result, ProxyError, ok, err, io, timed_out, authentication_failed}
use frame_mc.Wire.{ascii}
use frame_mc.Packet.{RawPacket, frame}
use frame_mc.Codec.{Zlib}
use frame_mc.Codec.Disconnect.{DisconnectPacket, encode_login}
use frame_mc.Stream.{Stream, Action, ◌>>=◌, ◌>>◌, pure, lift, within, receive, send}
use frame_mc.Aes.{Cipher}
use frame_mc.Config.{ProxyConfig}
use frame_mc.Profile.{PlayerProfile}
use frame_mc.SessionServer.{Http, default_mojang_session_server, verify_session_with_url}
use frame_mc.Digest.{Digests, mojang_sha1_digest, offline_profile}
use frame_mc.Login.Start
use frame_mc.Login.Start.{LoginStartPacket}
use frame_mc.Login.EncryptionRequest
use frame_mc.Login.EncryptionRequest.{generate}
use frame_mc.Login.EncryptionResponse
use frame_mc.Login.EncryptionResponse.{EncryptionResponsePacket}
use frame_mc.Login.Success
use frame_mc.Login.Success.{UuidText}
use frame_mc.Script.Store.{eq_ignore_ascii_case}
use frame_mc.Machine.{section_sign}

-- The loop over both texts; the difference starts at 0.
unfoldable pub diff_loop : ℕ → List ℕ → List ℕ → ℕ
diff_loop diff [] b = diff
diff_loop diff (x ∷ a) [] = diff
diff_loop diff (x ∷ a) (y ∷ b) = diff_loop (bit_or diff (bit_xor x y)) a b

unfoldable pub constant_time_eq : List ℕ → List ℕ → Bool
constant_time_eq a b = if not (length a == length b) then false else diff_loop 0 a b == 0

-- The RSA keys, the random bytes of this login, the HTTP client, the texts of errors and of JSON, and
-- the cipher of the encrypted stream.
pub record Authority : Type 1 where
  pub public_key_der : List ℕ
  pub decrypt : List ℕ → Result (List ℕ)
  pub random_token : List ℕ
  pub http : Http
  pub display : ProxyError → List ℕ
  pub json_text : List ℕ → List ℕ
  pub State : Type 0
  pub cipher : Cipher State

-- `config.session_server_url.as_deref().unwrap_or(DEFAULT_MOJANG_SESSION_SERVER)`
unfoldable pub endpoint_url : ProxyConfig → List ℕ
endpoint_url config = elim config.session_server_url [
  | none ↦ default_mojang_session_server
  | some url ↦ url
]

-- The player, and the secret under which the stream goes on where it is encrypted from here on.
abbrev pub Login : Type 0
Login = Option (List ℕ) × PlayerProfile

module _ (a : Authority) where
  -- What a new `EncryptedStream` puts out for bytes.
  unfoldable pub encrypted : List ℕ → List ℕ → List ℕ
  encrypted secret bytes = (a.cipher.encrypt_blocks bytes (a.cipher.start secret)).0

  -- The shared secret, if the token is the one that was sent and the secret fits AES-128.
  unfoldable pub open_response : EncryptionResponsePacket → Result (List ℕ)
  open_response enc_resp = elim (a.decrypt enc_resp.shared_secret) [
    | err e ↦ err e
    | ok secret ↦ elim (a.decrypt enc_resp.verify_token) [
      | err e ↦ err e
      | ok token ↦
          if not (constant_time_eq token a.random_token)
          then err authentication_failed
          else if not (length secret == 16)
          then err authentication_failed
          else ok secret
    ]
  ]

  -- A client whose session is not verified gets an encrypted Disconnect.
  unfoldable pub reject : List ℕ → ProxyError → Action PlayerProfile
  reject secret e s =
      let reason = section_sign ++ (ascii "cFailed to verify username: " ++ a.display e) in
      let packet = encode_login a.json_text (record { reason = reason }) in
      (err e, record s { written = s.written ++ encrypted secret (frame packet) })

  module _ (d : Digests) (z : Zlib) (config : ProxyConfig) (client_ip : List ℕ) where
    unfoldable pub verify_player : List ℕ → List ℕ → Action PlayerProfile
    verify_player username secret s =
        elim (verify_session_with_url a.http username
          (mojang_sha1_digest d [] secret a.public_key_der) client_ip (endpoint_url config)) [
            | err e ↦ reject secret e s
            | ok profile ↦
                if eq_ignore_ascii_case profile.name username
                then (ok profile, s)
                else (err authentication_failed, s)
          ]

    -- The online mode. Whether the client is late with its response is an argument.
    unfoldable pub authenticate : ℕ → Bool → List ℕ → Action Login
    authenticate protocol_version late username = do
      send z (
          EncryptionRequest.encode_with_version (generate a.public_key_der a.random_token)
            protocol_version)
      resp_raw ← within late (io timed_out) (receive z)
      enc_resp ← lift (EncryptionResponse.decode resp_raw)
      secret ← lift (open_response enc_resp)
      profile ← verify_player username secret
      pure (some secret, profile)

    unfoldable pub handle_login_auth : ℕ → Bool → Bool → Action Login
    handle_login_auth protocol_version start_late response_late = do
      raw_packet ← within start_late (io timed_out) (receive z)
      login_start ← lift (Start.decode raw_packet)
      (if config.online_mode
          then authenticate protocol_version response_late login_start.username
          else pure (none, offline_profile d login_start.username))

    -- A packet on the stream as it goes on.
    unfoldable pub send_active : Option (List ℕ) → RawPacket → Action (Unit {0})
    send_active none packet s = send z packet s
    send_active (some secret) packet s =
        (ok tt, record s { written = s.written ++ encrypted secret (frame packet) })

    unfoldable pub handle_login : UuidText → ℕ → Bool → Bool → Action Login
    handle_login u protocol_version start_late response_late = do
      login ← handle_login_auth protocol_version start_late response_late
      send_active login.0 (
          Success.encode_with_version u
            (record {
              uuid = login.1.id;
              username = login.1.name;
              properties = login.1.properties;
              session_id = if at_least protocol_version 776 then some u.new_v4 else none;
            })
            protocol_version)
      pure login
