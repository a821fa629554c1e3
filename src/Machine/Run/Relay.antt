-- ===== src/Machine/Run/Relay.antt =====
-- What becomes of a client's packet in one round of the loop.
use frame_mc.Prelude.{ℕ, ◌≡◌, arith, List, ◌++◌, false, Option, some, none, if◌then◌else◌}
use frame_mc.Error.{ok}
use frame_mc.Packet.{RawPacket, is_protected_plugin_channel}
use frame_mc.Codec.{
  IsZlib, default_max_packet_size, encode_packet_with_compression, read_packet_with_compression,
  write_packet_with_compression,
}
use frame_mc.Codec.RoundTrip.{Admits, read_packet-encode_packet}
use frame_mc.Stream.{Stream}
use frame_mc.Play.ChatCommand.{is_command_packet}
use frame_mc.Play.TabCompleteRequest.{is_tab_complete_request}
use frame_mc.Play.Ids.{is_serverbound_close_container_packet}
use frame_mc.Machine.{World, Chance, PlayStateMachine}
use frame_mc.Machine.Client.Laws.{forward_untouched}
use frame_mc.Machine.Run.{from_client, next, after_handler, client_round, on_event, round}

-- A packet is written to a stream whole, behind what is there.
write_of_encode :
    (w : World) (written bytes : List ℕ) (packet : RawPacket) (threshold : Option ℕ)
    → encode_packet_with_compression w.zlib packet threshold ≡ ok bytes
    → write_packet_with_compression w.zlib written packet threshold ≡ ok (written ++ bytes)
unfolding write_packet_with_compression
write_of_encode w written bytes packet threshold e = ground arith

module _ (w : World) (chance : Chance) where
  -- A packet that a client sends under its own threshold is relayed to the backend under the
  -- backend's: the round takes its bytes from the client, writes one frame to the backend that the
  -- backend's reader reads as the same packet, whatever follows it, and changes nothing else but that
  -- a close of a container is noted; the client gets nothing. The packet has no id of a command, a
  -- chat message or a request for completions and is not on a protected channel, inflating undoes
  -- deflating, and both frames are within the reader's maximum.
  pub client_packet_relayed :
      (packet : RawPacket) (m : PlayStateMachine w) (b : Stream) (sent passed rest more : List ℕ)
      → IsZlib w.zlib
      → is_protected_plugin_channel packet ≡ false
      → is_command_packet packet.id m.session.protocol_version ≡ false
      → is_tab_complete_request packet.id m.session.protocol_version ≡ false
      → m.backend ≡ some b
      → m.client.incoming ≡ sent ++ rest
      → encode_packet_with_compression w.zlib packet m.client_compression_threshold ≡ ok sent
      → Admits default_max_packet_size packet sent
      → encode_packet_with_compression w.zlib packet m.backend_compression_threshold ≡ ok passed
      → Admits default_max_packet_size packet passed
      → (round w (from_client chance) m
          ≡ next (
              let client : Stream = record m.client { incoming = rest } in
              let backend : Stream = record b { written = b.written ++ passed } in
              record m {
                client = client;
                backend = some backend;
                open_container_id =
                    if is_serverbound_close_container_packet packet.id m.session.protocol_version
                    then none
                    else m.open_container_id;
              }))
        × (read_packet_with_compression w.zlib default_max_packet_size
              m.backend_compression_threshold
              (passed ++ more)
            ≡ ok (packet, more))
  unfolding round on_event client_round after_handler
  client_packet_relayed packet m b sent passed rest more law free no_command no_request there waits
        encoded fits encoded' fits' =
      let client : Stream = record m.client { incoming = rest } in
      let m' : PlayStateMachine w = record m { client = client } in
      let taken =
        read_packet-encode_packet w.zlib default_max_packet_size packet
          m.client_compression_threshold sent rest law fits encoded in
      let read : read_packet_with_compression w.zlib default_max_packet_size
            m.client_compression_threshold m.client.incoming
          ≡ ok (packet, rest) =
        ground arith in
      let handled =
        forward_untouched w chance packet m' b (b.written ++ passed) free no_command no_request
          there
          (write_of_encode w b.written passed packet m.backend_compression_threshold encoded') in
      (
        ground arith,
        read_packet-encode_packet w.zlib default_max_packet_size packet
            m.backend_compression_threshold passed more law fits' encoded',
      )
