-- ===== src/Machine/Run.antt =====
-- src/routing/state_machine.rs: `run`, the loop of the session. Which branch of the `select!` is taken
-- is the environment's choice, one event for each round.
pub mod Laws
pub mod Relay
use frame_mc.Prelude.{ℕ, List, [], ◌∷◌, ◌++◌, Bool, true, false, Option, none, some}
use frame_mc.Error.{Result, ProxyError, ok, err}
use frame_mc.Wire.{ascii}
use frame_mc.Packet.{RawPacket, is_protected_plugin_channel}
use frame_mc.Codec.{default_max_packet_size, read_packet_with_compression}
use frame_mc.Codec.Disconnect.{DisconnectPacket, encode_for_client}
use frame_mc.Stream.{Stream}
use frame_mc.Prelude.{if◌then◌else◌}
use frame_mc.Machine.{World, Chance, PlayStateMachine, Play, section_sign, send_client}
use frame_mc.Machine.Method.{attempt}
use frame_mc.Machine.Switch.{members}
use frame_mc.Machine.Backend.{handle_backend_packet, handle_backend_eof}
use frame_mc.Machine.Client.{handle_client_packet}

-- What wakes the loop: a read from the client or from the backend that ends, or the shutdown.
pub data Event : Type 0 where
  from_client : Chance → Event
  from_backend : Chance → Event
  shutdown : Event

-- What a round leads to: another one, the end of the loop, or an error that ends the session at
-- once and leaves the streams open.
pub data Round (w : World) : Type 0 where
  next : PlayStateMachine w → Round w
  break : PlayStateMachine w → Round w
  failed : ProxyError → PlayStateMachine w → Round w

-- The message of a shutdown, `§cServer is shutting down`.
abbrev pub shutdown_reason : DisconnectPacket
shutdown_reason = record { reason = section_sign ++ ascii "cServer is shutting down" }

module _ (w : World) where
  -- `if !handler.await? { break; }`
  unfoldable pub after_handler : Result Bool × PlayStateMachine w → Round w
  after_handler (ok true, m) = next m
  after_handler (ok false, m) = break m
  after_handler (err e, m) = failed e m

  unfoldable pub client_round : Chance → PlayStateMachine w → Round w
  client_round chance m =
      elim (read_packet_with_compression w.zlib default_max_packet_size
        m.client_compression_threshold m.client.incoming) [
          | err e ↦ break m
          | ok (packet, rest) ↦
              let client : Stream = record m.client { incoming = rest } in
              after_handler (handle_client_packet w chance packet (record m { client = client }))
        ]

  unfoldable pub backend_round : Chance → Stream → PlayStateMachine w → Round w
  backend_round chance b m =
      elim (read_packet_with_compression w.zlib default_max_packet_size
        m.backend_compression_threshold b.incoming) [
          | err e ↦ after_handler (handle_backend_eof w chance m)
          | ok (packet, rest) ↦
              let backend : Stream = record b { incoming = rest } in
              let m' : PlayStateMachine w = record m { backend = some backend } in
              if is_protected_plugin_channel packet
              then next m'
              else after_handler (handle_backend_packet w chance packet m')
        ]

  unfoldable pub shutdown_round : PlayStateMachine w → Round w
  shutdown_round m =
      let pkt =
        encode_for_client w.json.text_object shutdown_reason m.session.protocol_version true in
      break (attempt (send_client w pkt) m).1

  unfoldable pub on_event : Event → Stream → PlayStateMachine w → Round w
  on_event (from_client chance) b m = client_round chance m
  on_event (from_backend chance) b m = backend_round chance b m
  on_event shutdown b m = shutdown_round m

  unfoldable pub round : Event → PlayStateMachine w → Round w
  round event m = elim m.backend [ none ↦ break m | some b ↦ on_event event b m ]

  -- Behind the loop: the client and the backend are shut down.
  unfoldable pub close_streams : PlayStateMachine w → PlayStateMachine w
  close_streams m = record m { backend = none; shut = m.shut ++ (m.client ∷ members m.backend) }

  -- The session over the events of its life; `none` while it still waits for another one.
  unfoldable pub run :
      List Event → PlayStateMachine w → Option (Result (Unit {0})) × PlayStateMachine w
  run [] m = (none, m)
  run (event ∷ events) m = elim (round event m) [
    | next m' ↦ run events m'
    | break m' ↦ (some (ok tt), close_streams m')
    | failed e m' ↦ (some (err e), m')
  ]
