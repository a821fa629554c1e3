-- ===== src/Play/ChatCommand.antt =====
-- src/routing/state_machine.rs: the packet of a chat command.
use frame_mc.Prelude.{ℕ, List, [], ◌∷◌, Bool, not, ◌||◌, ◌==◌, at_least, if◌then◌else◌}
use frame_mc.Error.{Result, ok, err, invalid_packet_id}
use frame_mc.Wire.{get_string, put_block}
use frame_mc.Packet.{RawPacket, new}

pub record ServerboundChatCommand : Type 0 where
  pub command : List ℕ

-- `SERVERBOUND_CHAT_COMMAND_PACKET_ID`
abbrev pub serverbound_chat_command_packet_id : ℕ
serverbound_chat_command_packet_id = 0x04

unfoldable pub is_command_packet : ℕ → ℕ → Bool
is_command_packet id protocol_version =
    if at_least protocol_version 776
    then (id == 0x07) || (id == 0x08) || (id == 0x09)
    else if at_least protocol_version 768
    then (id == 0x05) || (id == 0x06) || (id == 0x07)
    else if at_least protocol_version 766
    then (id == 0x04) || (id == 0x05) || (id == 0x06)
    else (id == 0x04) || (id == 0x05) || (id == 0x06) || (id == serverbound_chat_command_packet_id)

unfoldable pub decode_with_version : RawPacket → ℕ → Result ServerboundChatCommand
decode_with_version packet protocol_version =
    if not (is_command_packet packet.id protocol_version)
    then err (invalid_packet_id packet.id)
    else elim (get_string packet.payload) [
      | ok (command, _) ↦ ok (record { command = command })
      | err e ↦ err e
    ]

unfoldable pub decode : RawPacket → Result ServerboundChatCommand
decode packet = decode_with_version packet 765

unfoldable pub packet_id : ℕ → ℕ
packet_id protocol_version =
    if at_least protocol_version 776
    then 0x07
    else if at_least protocol_version 768
    then 0x05
    else if at_least protocol_version 766
    then 0x04
    else serverbound_chat_command_packet_id

unfoldable pub encode_with_version : ServerboundChatCommand → ℕ → RawPacket
encode_with_version packet protocol_version =
    new (packet_id protocol_version) (put_block packet.command)

unfoldable pub encode : ServerboundChatCommand → RawPacket
encode packet = encode_with_version packet 765

unfoldable pub normalized_command : ServerboundChatCommand → List ℕ
normalized_command packet = elim packet.command [
  | [] ↦ b'/' ∷ []
  | ch ∷ chs ↦ if ch == b'/' then ch ∷ chs else b'/' ∷ ch ∷ chs
]
