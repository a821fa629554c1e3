-- ===== src/Play/ScoreboardObjective.antt =====
-- src/routing/state_machine.rs: the packet of a scoreboard objective, without the fields of other
-- actions than the removal.
use frame_mc.Prelude.{ℕ, List, [], ◌∷◌, ◌++◌, not, ◌==◌, at_least, if◌then◌else◌}
use frame_mc.Error.{Result, err, invalid_packet_id}
use frame_mc.Wire.{Reader, ◌>>=◌, pure, run, get_u8, get_string, put_block}
use frame_mc.Packet.{RawPacket, new}

pub record ScoreboardObjectivePacket : Type 0 where
  pub name : List ℕ
  pub action : ℕ

-- `ScoreboardObjectivePacket::ACTION_REMOVE`
abbrev pub action_remove : ℕ
action_remove = 1

abbrev pub remove : List ℕ → ScoreboardObjectivePacket
remove name = record { name = name; action = action_remove }

-- `SCOREBOARD_OBJECTIVE_PACKET_ID`
abbrev pub scoreboard_objective_packet_id : ℕ
scoreboard_objective_packet_id = 0x5a

unfoldable pub packet_id_for_version : ℕ → ℕ
packet_id_for_version protocol_version =
    if at_least protocol_version 776
    then 0x6a
    else if at_least protocol_version 768
    then 0x64
    else if at_least protocol_version 766
    then 0x5e
    else if at_least protocol_version 765
    then 0x5c
    else if at_least protocol_version 764
    then scoreboard_objective_packet_id
    else if at_least protocol_version 762
    then 0x58
    else if protocol_version == 761
    then 0x54
    else 0x56

unfoldable pub encode_with_version : ScoreboardObjectivePacket → ℕ → RawPacket
encode_with_version packet protocol_version =
    new (packet_id_for_version protocol_version) (put_block packet.name ++ (packet.action ∷ []))

unfoldable pub read_fields : Reader ScoreboardObjectivePacket
read_fields = do name ← get_string; action ← get_u8; pure (record { name = name; action = action })

unfoldable pub decode : RawPacket → ℕ → Result ScoreboardObjectivePacket
decode packet protocol_version =
    if not (packet.id == packet_id_for_version protocol_version)
    then err (invalid_packet_id packet.id)
    else run read_fields packet.payload

unfoldable pub encode : ScoreboardObjectivePacket → RawPacket
encode packet = encode_with_version packet 765
