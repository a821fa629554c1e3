-- ===== src/Configuration.antt =====
-- src/protocol/configuration.rs: the packets of the Configuration state and the registry cache.
pub mod RegistryData
pub mod Entries
pub mod Cache
mod Examples
use frame_mc.Prelude.{ℕ, [], ◌==◌, if◌then◌else◌}
use frame_mc.Error.{Result, ok, err}
use frame_mc.Handshake.{ConnectionState, play}
use frame_mc.Wire.{pure}
use frame_mc.Packet.{RawPacket, new, decode_as}
use RegistryData
use RegistryData.{RegistryDataPacket}

abbrev pub finish_configuration_packet_id : ℕ
finish_configuration_packet_id = 0x02

pub data FinishConfigurationPacket : Type 0 where
  finish_configuration : FinishConfigurationPacket

unfoldable pub decode_finish : RawPacket → Result FinishConfigurationPacket
decode_finish = decode_as finish_configuration_packet_id (pure finish_configuration)

unfoldable pub encode_finish : FinishConfigurationPacket → RawPacket
encode_finish packet = new finish_configuration_packet_id []

unfoldable pub next_state : FinishConfigurationPacket → ConnectionState
next_state packet = play

pub data ClientboundConfigPacket : Type 0 where
  registry_data : RegistryDataPacket → ClientboundConfigPacket
  finish : FinishConfigurationPacket → ClientboundConfigPacket
  other : RawPacket → ClientboundConfigPacket

-- `ClientboundConfigPacket::decode`
unfoldable pub decode_clientbound : RawPacket → Result ClientboundConfigPacket
decode_clientbound packet =
    if packet.id == RegistryData.registry_data_packet_id
    then (elim (RegistryData.decode packet) [ ok reg ↦ ok (registry_data reg) | err e ↦ err e ])
    else if packet.id == finish_configuration_packet_id
    then (elim (decode_finish packet) [ ok fin ↦ ok (finish fin) | err e ↦ err e ])
    else ok (other packet)
