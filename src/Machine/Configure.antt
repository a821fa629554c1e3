-- ===== src/Machine/Configure.antt =====
-- src/routing/state_machine.rs: the configuration of a new backend within `switch_server`. What the
-- backend still sends is its stream's list, and the reader fails at its end.
pub mod Laws
pub mod Holds
use frame_mc.Prelude.{ℕ, zero, suc, List, [], Bool, true, false, ◌||◌, ◌&&◌, ◌==◌, Option, below}
use frame_mc.Prelude.{at_least, length, if◌then◌else◌}
use frame_mc.Error.{ok, err}
use frame_mc.Wire.{ascii}
use frame_mc.Varint.{encode_varint}
use frame_mc.Packet.{RawPacket, new}
use frame_mc.Codec.{
  default_max_packet_size, read_packet_with_compression, write_packet_with_compression,
}
use frame_mc.Stream.{Stream}
use frame_mc.Configuration.RegistryData.{registry_data_packet_id}
use frame_mc.Configuration.Cache.{SessionRegistryCache, cache_packet}
use frame_mc.Machine.{World, Chance}

-- What one packet leads to: the loop goes on, ends, or gives the transfer up for a reason.
pub data Answer : Type 0 where
  go_on : Stream → SessionRegistryCache → Answer
  done : Stream → SessionRegistryCache → Answer
  give_up : List ℕ → SessionRegistryCache → Answer

-- What the loop leads to. The registries that came in are kept in each case.
pub data Outcome : Type 0 where
  configured : Stream → SessionRegistryCache → Outcome
  refused : List ℕ → SessionRegistryCache → Outcome
  unfinished : SessionRegistryCache → Outcome

unfoldable pub finish_id : ℕ → ℕ
finish_id protocol_version = if at_least protocol_version 766 then 0x03 else 0x02

unfoldable pub disconnect_id : ℕ → ℕ
disconnect_id protocol_version = if at_least protocol_version 766 then 0x02 else 0x01

module _ (w : World) (protocol_version : ℕ) (threshold : Option ℕ) where
  -- A packet for the backend, after which the loop goes on or ends.
  unfoldable pub reply :
      RawPacket → (Stream → SessionRegistryCache → Answer) → Stream → SessionRegistryCache → Answer
  reply packet next stream cache =
      elim (write_packet_with_compression w.zlib stream.written packet threshold) [
        | ok bytes ↦ next (record stream { written = bytes }) cache
        | err e ↦ give_up (w.display e) cache
      ]

  unfoldable pub answer : RawPacket → Stream → SessionRegistryCache → Answer
  answer packet stream cache =
      if (packet.id == registry_data_packet_id)
        || (below protocol_version 766 && (packet.id == 0x05))
      then go_on stream (cache_packet packet cache).1
      else if at_least protocol_version 766 && (packet.id == 0x0e)
      then reply (new 0x07 (encode_varint 0)) go_on stream cache
      else if packet.id == 0x04
      then reply packet go_on stream cache
      else if packet.id == 0x05
      then reply packet go_on stream cache
      else if packet.id == finish_id protocol_version
      then reply (new (finish_id protocol_version) []) done stream cache
      else if packet.id == disconnect_id protocol_version
      then give_up (w.lossy packet.payload) cache
      else go_on stream cache

  -- The loop, with at most so many packets.
  unfoldable pub configure : Chance → ℕ → Stream → SessionRegistryCache → Outcome
  configure chance zero stream cache = unfinished cache
  configure chance (suc packets) stream cache = elim (chance.late stream.incoming) [
    | true ↦ refused (ascii "connection timed out") cache
    | false ↦
        elim (read_packet_with_compression w.zlib default_max_packet_size threshold
          stream.incoming) [
            | err e ↦ refused (w.display e) cache
            | ok (packet, rest) ↦ elim (answer packet (record stream { incoming = rest }) cache) [
              | go_on stream' cache' ↦ configure chance packets stream' cache'
              | done stream' cache' ↦ configured stream' cache'
              | give_up reason cache' ↦ refused reason cache'
            ]
          ]
  ]

  -- Only since version 764. Every packet takes a byte, so the bytes that are left bound the rounds.
  unfoldable pub negotiate : Chance → Stream → SessionRegistryCache → Outcome
  negotiate chance stream cache =
      if at_least protocol_version 764
      then configure chance (suc (length stream.incoming)) stream cache
      else configured stream cache
