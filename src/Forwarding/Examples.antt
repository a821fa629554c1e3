-- ===== src/Forwarding/Examples.antt =====
-- Runs of the negotiation with a backend.
use frame_mc.Prelude.{ℕ, ◌≡◌, refl, List, [], ◌∷◌, ◌++◌, false, lt_wf}
use frame_mc.Error.{ok, err, authentication_failed}
use frame_mc.Varint.{encode_varint, write_loop, read_loop, read_varint, decode_varint}
use frame_mc.Wire.{ascii, take_bytes, from_utf8, get_block, get_string}
use frame_mc.Wire.Utf8.{is_utf8, continues, lead}
use frame_mc.Packet.{frame}
use frame_mc.Codec.{
  read_packet, read_packet_with_compression, read_body, split_id, open_body, write_packet,
  write_packet_with_compression, encode_packet_with_compression,
}
use frame_mc.Config.{velocity_modern}
use frame_mc.Stream.{Stream, receive, send}
use frame_mc.Forwarding.PluginRequest
use frame_mc.Forwarding.PluginRequest.{LoginPluginRequestPacket, decode-encode_plugin_request}
use frame_mc.Forwarding.Payload.{
  velocity_forwarding_channel, create_velocity_response_data, create_velocity_forwarding_payload,
  calculate_velocity_hmac,
}
use frame_mc.Forwarding.Dispatch.{
  handshake_addr, handshake_packet, login_start_packet, answer_request, answer_backend, negotiate,
  dispatch_forwarding,
}
use frame_mc.Forwarding.Dispatch.Negotiation.{Negotiated, response}
use frame_mc.Forwarding.Dispatch.Laws.{opening, opened, dispatch_velocity_ok, dispatch_velocity_err}
use frame_mc.Samples.{stored, crates, player, address, backend_of}
use native.Mathlib.Decide.{ℕ_discrete, dec_lt}

abbrev request : LoginPluginRequestPacket
request = record { message_id = 7; channel = velocity_forwarding_channel; contents = 4 ∷ [] }

-- What the backend sends: the frame of the request, and one byte of the next packet.
abbrev asking : Stream
asking = record {
  incoming = 24 ∷ 4 ∷ 7 ∷ 20 ∷ velocity_forwarding_channel ++ (4 ∷ 99 ∷ []);
  written = [];
}

-- A backend that answers the login with another packet.
abbrev refusing : Stream
refusing = record { incoming = 2 ∷ 0 ∷ 0 ∷ []; written = [] }

abbrev signed : List ℕ
signed = ascii "key" ++ (4 ∷ create_velocity_forwarding_payload player address)

abbrev asked : Stream
asked = record {
  incoming = 99 ∷ [];
  written =
      opening crates stored (backend_of velocity_modern) player address 767 false asking
        (ascii "lobby")
      ++ frame (response crates stored (backend_of velocity_modern) player address request signed);
}

answered :
    dispatch_forwarding crates stored (backend_of velocity_modern) player address 767 false asking
    ≡ (ok tt, asked)
unfolding dispatch_forwarding handshake_addr handshake_packet login_start_packet negotiate
    answer_backend answer_request receive send write_packet write_packet_with_compression
    encode_packet_with_compression frame read_packet read_packet_with_compression read_varint
    decode_varint read_loop read_body take_bytes dec_lt lt_wf open_body split_id
    PluginRequest.decode PluginRequest.read_fields get_string get_block from_utf8 is_utf8 continues
    lead create_velocity_response_data calculate_velocity_hmac create_velocity_forwarding_payload
    encode_varint write_loop ℕ_discrete
answered = refl

dispatch_velocity_ok_example :
    Negotiated crates stored
      (backend_of velocity_modern)
      player
      address
      (opened crates stored
        (backend_of velocity_modern)
        player
        address
        767
        false
        asking
        (ascii "lobby"))
      asked
dispatch_velocity_ok_example =
    dispatch_velocity_ok crates stored (backend_of velocity_modern) player address 767 false asking
      asked refl answered

abbrev refused : Stream
refused = record {
  incoming = [];
  written =
      opening crates stored (backend_of velocity_modern) player address 767 false refusing
        (ascii "lobby");
}

backend_refuses :
    dispatch_forwarding crates stored (backend_of velocity_modern) player address 767 false refusing
    ≡ (err authentication_failed, refused)
unfolding dispatch_forwarding handshake_addr handshake_packet login_start_packet negotiate
    answer_backend receive send write_packet write_packet_with_compression
    encode_packet_with_compression frame read_packet read_packet_with_compression read_varint
    decode_varint read_loop read_body take_bytes dec_lt lt_wf open_body split_id
backend_refuses = refl

dispatch_velocity_err_example :
    refused.written
    ≡ refusing.written
      ++ opening crates stored
          (backend_of velocity_modern)
          player
          address
          767
          false
          refusing
          (ascii "lobby")
dispatch_velocity_err_example =
    dispatch_velocity_err crates stored (backend_of velocity_modern) player address 767 false
      refusing authentication_failed refused refl backend_refuses
