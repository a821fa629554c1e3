-- ===== src/Configuration/RegistryData.antt =====
-- src/protocol/configuration.rs: the RegistryData packet.
use frame_mc.Prelude.{ℕ, ◌≡◌, arith, List, ◌++◌}
use frame_mc.Error.{Result, ok}
use frame_mc.Wire.{Reader, ◌>>=◌, pure, take_rest, get_string, put_block, IsText}
use frame_mc.Wire.Laws.{get_string-put_string}
use frame_mc.Packet.{RawPacket, new, decode_as}

abbrev pub registry_data_packet_id : ℕ
registry_data_packet_id = 0x07

pub record RegistryDataPacket : Type 0 where
  pub registry_id : List ℕ
  pub raw_data : List ℕ

unfoldable pub encode : RegistryDataPacket → RawPacket
encode packet = new registry_data_packet_id (put_block packet.registry_id ++ packet.raw_data)

unfoldable pub read_fields : Reader RegistryDataPacket
read_fields = do
  registry_id ← get_string
  raw_data ← take_rest
  pure (record { registry_id = registry_id; raw_data = raw_data })

unfoldable pub decode : RawPacket → Result RegistryDataPacket
decode = decode_as registry_data_packet_id read_fields

-- The registry's bytes come back verbatim, whatever they are.
pub decode-encode_registry :
    (packet : RegistryDataPacket) → IsText packet.registry_id → decode (encode packet) ≡ ok packet
unfolding decode encode read_fields
decode-encode_registry packet h =
    ground (arith, get_string-put_string packet.registry_id packet.raw_data h)
