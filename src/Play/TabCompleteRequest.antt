-- ===== src/Play/TabCompleteRequest.antt =====
-- src/routing/state_machine.rs: the request for completions of a command.
use frame_mc.Prelude.{ℕ, List, ◌++◌, Bool, not, ◌||◌, ◌==◌, at_least, if◌then◌else◌}
use frame_mc.Error.{Result, err, invalid_packet_id}
use frame_mc.Varint.{decode_varint, encode_varint}
use frame_mc.Wire.{Reader, ◌>>=◌, pure, run, get_string, put_block}
use frame_mc.Packet.{RawPacket, new}

pub record TabCompleteRequestPacket : Type 0 where
  pub transaction_id : ℕ
  pub text : List ℕ

unfoldable pub is_tab_complete_request : ℕ → ℕ → Bool
is_tab_complete_request id protocol_version =
    if at_least protocol_version 776
    then id == 0x0f
    else if at_least protocol_version 768
    then (id == 0x0d) || (id == 0x0f)
    else if at_least protocol_version 766
    then id == 0x0b
    else if at_least protocol_version 764
    then id == 0x0a
    else (id == 0x09) || (id == 0x08) || (id == 0x06) || (id == 0x05)

unfoldable pub read_fields : Reader TabCompleteRequestPacket
read_fields = do
  transaction_id ← decode_varint
  text ← get_string
  pure (record { transaction_id = transaction_id; text = text })

unfoldable pub decode : RawPacket → ℕ → Result TabCompleteRequestPacket
decode packet protocol_version =
    if not (is_tab_complete_request packet.id protocol_version)
    then err (invalid_packet_id packet.id)
    else run read_fields packet.payload

unfoldable pub packet_id : ℕ → ℕ
packet_id protocol_version =
    if at_least protocol_version 776
    then 0x0f
    else if at_least protocol_version 768
    then 0x0d
    else if at_least protocol_version 766
    then 0x0b
    else if at_least protocol_version 764
    then 0x0a
    else 0x06

unfoldable pub encode_with_version : TabCompleteRequestPacket → ℕ → RawPacket
encode_with_version packet protocol_version =
    new (packet_id protocol_version) (encode_varint packet.transaction_id ++ put_block packet.text)
