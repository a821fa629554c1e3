-- ===== src/Play/BossBar.antt =====
-- src/routing/state_machine.rs: the packet of a boss bar, without the fields of other actions than
-- the removal.
use frame_mc.Prelude.{ℕ, List, ◌++◌, not, ◌==◌, at_least, if◌then◌else◌}
use frame_mc.Error.{Result, err, invalid_packet_id}
use frame_mc.Varint.{decode_varint, encode_varint}
use frame_mc.Wire.{Reader, ◌>>=◌, pure, run, take_bytes}
use frame_mc.Packet.{RawPacket, new}

pub record BossBarPacket : Type 0 where
  pub uuid : List ℕ
  pub action : ℕ

-- `BossBarPacket::ACTION_REMOVE`
abbrev pub action_remove : ℕ
action_remove = 1

abbrev pub remove : List ℕ → BossBarPacket
remove uuid = record { uuid = uuid; action = action_remove }

-- `BOSS_BAR_PACKET_ID`
abbrev pub boss_bar_packet_id : ℕ
boss_bar_packet_id = 0x0a

unfoldable pub packet_id_for_version : ℕ → ℕ
packet_id_for_version protocol_version =
    if at_least protocol_version 776
    then 0x09
    else if at_least protocol_version 764
    then boss_bar_packet_id
    else if at_least protocol_version 762
    then 0x0b
    else boss_bar_packet_id

unfoldable pub encode_with_version : BossBarPacket → ℕ → RawPacket
encode_with_version packet protocol_version =
    new (packet_id_for_version protocol_version) (packet.uuid ++ encode_varint packet.action)

unfoldable pub read_fields : Reader BossBarPacket
read_fields = do
  uuid ← take_bytes 16
  action ← decode_varint
  pure (record { uuid = uuid; action = action })

unfoldable pub decode : RawPacket → ℕ → Result BossBarPacket
decode packet protocol_version =
    if not (packet.id == packet_id_for_version protocol_version)
    then err (invalid_packet_id packet.id)
    else run read_fields packet.payload

unfoldable pub encode : BossBarPacket → RawPacket
encode packet = encode_with_version packet 765
