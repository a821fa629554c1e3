-- ===== src/Play/DisplayObjective.antt =====
-- src/routing/state_machine.rs: the packet that shows an objective in a slot, or clears the slot.
use frame_mc.Prelude.{ℕ, List, [], ◌++◌, not, ◌==◌, at_least, if◌then◌else◌}
use frame_mc.Error.{Result, err, invalid_packet_id}
use frame_mc.Varint.{decode_varint, encode_varint}
use frame_mc.Wire.{Reader, ◌>>=◌, pure, run, get_string, put_block}
use frame_mc.Packet.{RawPacket, new}

pub record DisplayObjectivePacket : Type 0 where
  pub position : ℕ
  pub name : List ℕ

abbrev pub clear : ℕ → DisplayObjectivePacket
clear position = record { position = position; name = [] }

-- `DISPLAY_OBJECTIVE_PACKET_ID`
abbrev pub display_objective_packet_id : ℕ
display_objective_packet_id = 0x53

unfoldable pub packet_id_for_version : ℕ → ℕ
packet_id_for_version protocol_version =
    if at_least protocol_version 776
    then 0x62
    else if at_least protocol_version 768
    then 0x5c
    else if at_least protocol_version 766
    then 0x57
    else if at_least protocol_version 765
    then 0x55
    else if at_least protocol_version 764
    then display_objective_packet_id
    else if at_least protocol_version 762
    then 0x51
    else if protocol_version == 761
    then 0x4d
    else 0x4f

unfoldable pub encode_with_version : DisplayObjectivePacket → ℕ → RawPacket
encode_with_version packet protocol_version =
    new (packet_id_for_version protocol_version)
      (encode_varint packet.position ++ put_block packet.name)

unfoldable pub read_fields : Reader DisplayObjectivePacket
read_fields = do
  position ← decode_varint
  name ← get_string
  pure (record { position = position; name = name })

unfoldable pub decode : RawPacket → ℕ → Result DisplayObjectivePacket
decode packet protocol_version =
    if not (packet.id == packet_id_for_version protocol_version)
    then err (invalid_packet_id packet.id)
    else run read_fields packet.payload

unfoldable pub encode : DisplayObjectivePacket → RawPacket
encode packet = encode_with_version packet 765
