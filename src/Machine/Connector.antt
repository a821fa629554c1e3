-- ===== src/Machine/Connector.antt =====
-- src/routing/state_machine.rs: `TcpBackendConnector::connect`, over src/protocol/forwarding.rs:
-- `connect_and_forward`. Whether the TCP connection opens in time is an argument.
pub mod Laws
use frame_mc.Prelude.{
  ℕ, ◌≡◌, refl, arith, List, [], ◌∷◌, ◌++◌, Bool, true, false, not, ◌||◌, ◌==◌, Option, none, some,
}
use frame_mc.Prelude.{at_least, is_negative, as_usize, IsShort, if◌then◌else◌, ap, ◌∙◌}
use frame_mc.Error.{Result, Result-cases, ProxyError, ok, err, io, invalid_data}
use frame_mc.Error.{authentication_failed, invalid_packet_id}
use frame_mc.Varint.{decode_varint, encode_varint}
use frame_mc.Wire.Laws.{decode_varint_end}
use frame_mc.Packet.{RawPacket, new}
use frame_mc.Codec.{
  Zlib, IsZlib, default_max_packet_size, read_packet, read_packet_with_compression,
  encode_packet_with_compression, write_packet_with_compression,
}
use frame_mc.Codec.RoundTrip.{Admits, read_packet-encode_packet}
use frame_mc.Stream.{Stream, Action, ◌>>=◌, ◌>>◌, pure, raise, lift, receive}
use frame_mc.Profile.{PlayerProfile}
use frame_mc.Config.{BackendConfig}
use frame_mc.Forwarding.Payload.{Crates}
use frame_mc.Forwarding.Dispatch.{dispatch_forwarding}
use frame_mc.Login.Acknowledged
use frame_mc.Login.Acknowledged.{login_acknowledged}

-- The threshold of a SetCompression packet.
unfoldable pub read_threshold : RawPacket → Result ℕ
read_threshold packet = elim (decode_varint packet.payload) [
  | err e ↦ err e
  | ok (thresh, _) ↦ if is_negative thresh then err (io invalid_data) else ok (as_usize thresh)
]

unfoldable pub check_login : RawPacket → Result (Unit {0})
check_login login_pkt =
    if login_pkt.id == 0x01
    then err authentication_failed
    else if login_pkt.id == 0x00
    then err authentication_failed
    else if not (login_pkt.id == 0x02)
    then err (invalid_packet_id login_pkt.id)
    else ok tt

module _ (z : Zlib) where
  unfoldable pub receive_with : Option ℕ → Action RawPacket
  receive_with threshold s =
      elim (read_packet_with_compression z default_max_packet_size threshold s.incoming) [
        | ok (packet, rest) ↦ (ok packet, record s { incoming = rest })
        | err e ↦ (err e, s)
      ]

  unfoldable pub send_with : Option ℕ → RawPacket → Action (Unit {0})
  send_with threshold packet s = elim (write_packet_with_compression z s.written packet threshold) [
    | ok bytes ↦ (ok tt, record s { written = bytes })
    | err e ↦ (err e, s)
  ]

  -- The packet that answers the login, and the threshold that came before it.
  unfoldable pub read_login : RawPacket → Action (Option ℕ × RawPacket)
  read_login first_pkt =
      if first_pkt.id == 0x03
      then (do
        threshold ← lift (read_threshold first_pkt)
        next_pkt ← receive_with (some threshold)
        pure (some threshold, next_pkt))
      else pure (none, first_pkt)

  unfoldable pub acknowledge : ℕ → Option ℕ → Action (Unit {0})
  acknowledge protocol_version threshold =
      if at_least protocol_version 764
      then send_with threshold (Acknowledged.encode login_acknowledged)
      else pure tt

  unfoldable pub finish_login : ℕ → Action (Option ℕ)
  finish_login protocol_version = do
    first_pkt ← receive z
    login ← read_login first_pkt
    lift (check_login login.1)
    acknowledge protocol_version login.0
    pure login.0

  module _ (c : Crates) where
    unfoldable pub connect_and_forward :
        Result Stream → BackendConfig → PlayerProfile → List ℕ → ℕ → Bool → Result Stream
    connect_and_forward (err e) backend profile client_ip protocol_version late = err e
    connect_and_forward (ok stream) backend profile client_ip protocol_version late =
        let r = dispatch_forwarding c z backend profile client_ip protocol_version late stream in
        elim r.0 [ ok u ↦ ok r.1 | err e ↦ err e ]

    unfoldable pub connect :
        Result Stream
        → BackendConfig
        → PlayerProfile
        → List ℕ
        → ℕ
        → Bool
        → Result (Stream × Option ℕ)
    connect opened backend profile client_ip protocol_version late =
        elim (connect_and_forward opened backend profile client_ip protocol_version late) [
          | err e ↦ err e
          | ok stream ↦
              let r = finish_login protocol_version stream in
              elim r.0 [ ok threshold ↦ ok (r.1, threshold) | err e ↦ err e ]
        ]
