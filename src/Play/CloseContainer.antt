-- ===== src/Play/CloseContainer.antt =====
-- src/routing/state_machine.rs: the packet that closes a container window.
use frame_mc.Prelude.{ℕ, [], ◌∷◌, not, ◌==◌, at_least, if◌then◌else◌}
use frame_mc.Error.{Result, err, invalid_packet_id}
use frame_mc.Wire.{Reader, ◌>>=◌, pure, run, get_u8}
use frame_mc.Packet.{RawPacket, new}

pub record CloseContainerPacket : Type 0 where
  pub window_id : ℕ

-- `CLOSE_CONTAINER_PACKET_ID`
abbrev pub close_container_packet_id : ℕ
close_container_packet_id = 0x12

unfoldable pub packet_id_for_version : ℕ → ℕ
packet_id_for_version protocol_version =
    if at_least protocol_version 776
    then 0x11
    else if at_least protocol_version 764
    then close_container_packet_id
    else if at_least protocol_version 762
    then 0x11
    else if protocol_version == 761
    then 0x0f
    else if at_least protocol_version 759
    then 0x10
    else close_container_packet_id

unfoldable pub encode_with_version : CloseContainerPacket → ℕ → RawPacket
encode_with_version packet protocol_version =
    new (packet_id_for_version protocol_version) (packet.window_id ∷ [])

unfoldable pub read_fields : Reader CloseContainerPacket
read_fields = do window_id ← get_u8; pure (record { window_id = window_id })

unfoldable pub decode : RawPacket → ℕ → Result CloseContainerPacket
decode packet protocol_version =
    if not (packet.id == packet_id_for_version protocol_version)
    then err (invalid_packet_id packet.id)
    else run read_fields packet.payload

unfoldable pub encode : CloseContainerPacket → RawPacket
encode packet = encode_with_version packet 765
