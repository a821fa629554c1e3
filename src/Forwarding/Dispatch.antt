-- ===== src/Forwarding/Dispatch.antt =====
-- src/protocol/forwarding.rs: `dispatch_forwarding`, the negotiation with a backend.
pub mod Negotiation
pub mod Laws
use frame_mc.Prelude.{ℕ, ◌==◌, List, [], ◌∷◌, ◌++◌, Bool, true, false, Option, none, some, list_eq}
use frame_mc.Prelude.{if◌then◌else◌}
use frame_mc.Error.{Result, ok, err, config_error, authentication_failed, backend_connection_failed}
use frame_mc.Codec.{Zlib}
use frame_mc.Stream.{Stream, Action, ◌>>=◌, ◌>>◌, pure, raise, lift, within, receive, send}
use frame_mc.Packet.{RawPacket}
use frame_mc.Profile.{PlayerProfile}
use frame_mc.Config.{BackendConfig, ForwardingMode, no_forwarding, legacy_bungee, velocity_modern}
use frame_mc.Handshake
use frame_mc.Handshake.{HandshakePacket, login}
use frame_mc.Login.Start
use frame_mc.Forwarding.PluginRequest
use frame_mc.Forwarding.PluginRequest.{LoginPluginRequestPacket}
use frame_mc.Forwarding.PluginResponse
use frame_mc.Forwarding.Payload.{Crates, velocity_forwarding_channel, create_velocity_response_data}
use frame_mc.Forwarding.Payload.{create_bungeecord_handshake_address}

module _ (c : Crates) (z : Zlib) where
  -- The address in the handshake, by the mode.
  unfoldable pub handshake_addr :
      ForwardingMode → BackendConfig → PlayerProfile → List ℕ → Result (List ℕ)
  handshake_addr legacy_bungee backend profile client_ip =
      create_bungeecord_handshake_address c backend.address client_ip profile
  handshake_addr _ backend profile client_ip = ok backend.address

  unfoldable pub handshake_packet : BackendConfig → ℕ → List ℕ → RawPacket
  handshake_packet backend protocol_version addr = Handshake.encode (record {
    protocol_version = protocol_version;
    server_address = addr;
    server_port = backend.port;
    next_state = login;
  })

  unfoldable pub login_start_packet : PlayerProfile → RawPacket
  login_start_packet profile =
      Start.encode (record { username = profile.name; player_uuid = profile.id })

  -- The answer to a request on the expected channel.
  unfoldable pub answer_request :
      List ℕ → PlayerProfile → List ℕ → LoginPluginRequestPacket → Action (Unit {0})
  answer_request secret profile client_ip req =
      if list_eq req.channel velocity_forwarding_channel
      then (do
        forwarding_data ← lift (create_velocity_response_data c secret profile client_ip)
        send z (
            PluginResponse.encode (record {
              message_id = req.message_id;
              successful = true;
              contents = forwarding_data;
            })))
      else raise authentication_failed

  unfoldable pub answer_backend : List ℕ → PlayerProfile → List ℕ → RawPacket → Action (Unit {0})
  answer_backend secret profile client_ip incoming =
      if incoming.id == 0x04
      then (do
        req ← lift (PluginRequest.decode incoming)
        answer_request secret profile client_ip req)
      else raise authentication_failed

  -- Part 3, for the mode `velocity_modern` alone.
  unfoldable pub negotiate :
      ForwardingMode → BackendConfig → PlayerProfile → List ℕ → Bool → Action (Unit {0})
  negotiate velocity_modern backend profile client_ip late = elim backend.forwarding_secret [
    | none ↦ raise config_error
    | some secret ↦ do
      incoming ← within late backend_connection_failed (receive z)
      answer_backend secret profile client_ip incoming
  ]
  negotiate _ backend profile client_ip late = pure tt

  unfoldable pub dispatch_forwarding :
      BackendConfig → PlayerProfile → List ℕ → ℕ → Bool → Action (Unit {0})
  dispatch_forwarding backend profile client_ip protocol_version late = do
    addr ← lift (handshake_addr backend.forwarding_mode backend profile client_ip)
    send z (handshake_packet backend protocol_version addr)
    send z (login_start_packet profile)
    negotiate backend.forwarding_mode backend profile client_ip late
