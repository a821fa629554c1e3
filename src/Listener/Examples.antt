-- ===== src/Listener/Examples.antt =====
-- A login in the online mode, and comparisons.
use frame_mc.Prelude.{ℕ, ◌≡◌, refl, arith, List, [], ◌∷◌, ◌++◌, Bool, true, false, some, list_eq}
use frame_mc.Error.{ok}
use frame_mc.Wire.{ascii}
use frame_mc.Samples.{stored, player, name, uuid, address}
use frame_mc.Stream.{Stream}
use frame_mc.Aes.{Cipher}
use frame_mc.Config.{ProxyConfig}
use frame_mc.Digest.{Digests}
use frame_mc.Listener.{constant_time_eq, Authority, Login, handle_login_auth}
use frame_mc.Listener.Compare.{constant_time_eq-list_eq}
use frame_mc.Listener.Laws.{Verified, handle_login_auth-Verified}
use frame_mc.Machine.Samples.{settings}

constant_time_eq-list_eq_example :
    constant_time_eq (1 ∷ 2 ∷ 3 ∷ []) (1 ∷ 2 ∷ 4 ∷ []) ≡ list_eq (1 ∷ 2 ∷ 3 ∷ []) (1 ∷ 2 ∷ 4 ∷ [])
constant_time_eq-list_eq_example = constant_time_eq-list_eq (1 ∷ 2 ∷ 3 ∷ []) (1 ∷ 2 ∷ 4 ∷ [])

-- A cipher that leaves bytes as they are.
abbrev clear : Cipher (List ℕ)
clear = record {
  start = λ key. key;
  encrypt_blocks = λ bytes state. (bytes, state);
  decrypt_blocks = λ bytes state. (bytes, state);
}

abbrev authority : Authority
authority = record {
  public_key_der = 9 ∷ 9 ∷ [];
  decrypt = λ bytes. ok bytes;
  random_token = 1 ∷ 2 ∷ 3 ∷ 4 ∷ [];
  http = λ url. some (record { status = 200; json = some player });
  display = λ e. [];
  json_text = λ text. text;
  State = List ℕ;
  cipher = clear;
}

abbrev digests : Digests
digests = record { sha1 = λ bytes. bytes; hex_encode = λ bytes. bytes; new_v3_oid = λ text. uuid }

abbrev online : ProxyConfig
online = record settings { online_mode = true }

-- The LoginStart, and the response with the token and 16 bytes, the UUID's, as the secret.
abbrev joining : Stream
joining = record {
  incoming = (25 ∷ 0 ∷ 7 ∷ name) ++ (uuid ++ ((23 ∷ 1 ∷ 16 ∷ uuid) ++ (4 ∷ 1 ∷ 2 ∷ 3 ∷ 4 ∷ [])));
  written = [];
}

abbrev joined : Login
joined = (some uuid, player)

accepted :
    (handle_login_auth authority digests stored online address 763 false false joining).0
    ≡ ok joined
unfolding handle_login_auth frame_mc.Stream.receive frame_mc.Codec.read_packet
    frame_mc.Codec.read_packet_with_compression frame_mc.Varint.read_varint
    frame_mc.Varint.read_loop frame_mc.Codec.read_body frame_mc.Prelude.lt_wf
    frame_mc.Codec.open_body frame_mc.Codec.split_id frame_mc.Varint.decode_varint
    frame_mc.Login.Start.decode frame_mc.Login.Start.read_fields frame_mc.Login.Start.all_name_chars
    frame_mc.Login.Start.is_name_char frame_mc.Wire.from_utf8 frame_mc.Wire.Utf8.is_utf8
    frame_mc.Login.Start.read_uuid_or_nil frame_mc.Codec.Disconnect.encode_login
    frame_mc.Codec.encode_packet_with_compression frame_mc.Codec.open_compressed
    frame_mc.Codec.write_packet frame_mc.Codec.write_packet_with_compression
    frame_mc.Digest.is_negative_hash frame_mc.Digest.mojang_sha1_digest frame_mc.Digest.negate
    frame_mc.Digest.offline_profile frame_mc.Digest.or_zero frame_mc.Digest.signed_hex
    frame_mc.Digest.trim_zeros frame_mc.Listener.authenticate constant_time_eq
    frame_mc.Listener.diff_loop frame_mc.Listener.encrypted frame_mc.Listener.endpoint_url
    frame_mc.Listener.open_response frame_mc.Listener.reject frame_mc.Listener.verify_player
    frame_mc.Login.EncryptionRequest.encode_with_version frame_mc.Login.EncryptionRequest.generate
    frame_mc.Login.EncryptionRequest.put_flag frame_mc.Login.EncryptionResponse.decode
    frame_mc.Login.EncryptionResponse.read_fields frame_mc.Packet.frame frame_mc.Stream.send
    frame_mc.Varint.add_group frame_mc.Varint.encode_varint frame_mc.Varint.varint_size
    frame_mc.Varint.write_loop frame_mc.Wire.Utf8.continues frame_mc.Wire.Utf8.lead
    frame_mc.Wire.get_block frame_mc.Wire.put_block frame_mc.Wire.take_bytes
    native.Mathlib.Bridge.IsLe native.Mathlib.Decide.dec_le native.Mathlib.Decide.dec_lt
    native.Mathlib.Decide.ℕ_discrete frame_mc.SessionServer.verify_session_with_url
    frame_mc.SessionServer.read_response frame_mc.SessionServer.is_success
accepted = refl

handle_login_auth-Verified_example :
    Verified authority digests stored online 763 joining joined
      (handle_login_auth authority digests stored online address 763 false false joining).1
handle_login_auth-Verified_example =
    handle_login_auth-Verified authority digests stored online address 763 false false joining
      joined refl accepted
