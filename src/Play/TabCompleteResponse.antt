-- ===== src/Play/TabCompleteResponse.antt =====
-- src/routing/state_machine.rs: the completions of a command.
use frame_mc.Prelude.{
  ℕ, zero, suc, List, [], ◌∷◌, ◌++◌, not, ◌&&◌, ◌==◌, at_least, leb, as_i32, length, if◌then◌else◌,
}
use frame_mc.Error.{Result, ok, err, io, invalid_data, invalid_packet_id}
use frame_mc.Varint.{decode_varint, encode_varint}
use frame_mc.Wire.{Reader, ◌>>=◌, ◌>>◌, pure, run, refuse_if, get_string, put_block}
use frame_mc.Packet.{RawPacket, new}

-- The field `length` is `span` here.
pub record TabCompleteResponsePacket : Type 0 where
  pub transaction_id : ℕ
  pub start : ℕ
  pub span : ℕ
  pub matches : List (List ℕ)

unfoldable pub packet_id_for_version : ℕ → ℕ
packet_id_for_version protocol_version =
    if at_least protocol_version 776
    then 0x0f
    else if at_least protocol_version 764
    then 0x10
    else 0x0f

-- Each match is followed by a flag that says that it has no tooltip.
unfoldable pub put_matches : List (List ℕ) → List ℕ
put_matches [] = []
put_matches (m ∷ ms) = put_block m ++ (0 ∷ put_matches ms)

unfoldable pub encode_with_version : TabCompleteResponsePacket → ℕ → RawPacket
encode_with_version packet protocol_version = new (packet_id_for_version protocol_version) (
    encode_varint packet.transaction_id
    ++ (encode_varint packet.start
        ++ (encode_varint packet.span
            ++ (encode_varint (as_i32 (length packet.matches)) ++ put_matches packet.matches))))

-- The flag of a tooltip, if there is a byte for it.
unfoldable pub skip_flag : Reader (Unit {0})
skip_flag [] = ok (tt, [])
skip_flag (b ∷ bs) = ok (tt, bs)

-- The loop `for _ in 0..count`.
unfoldable pub read_matches : ℕ → Reader (List (List ℕ))
read_matches zero = pure []
read_matches (suc n) = do m ← get_string; skip_flag; ms ← read_matches n; pure (m ∷ ms)

unfoldable pub read_fields : Reader TabCompleteResponsePacket
read_fields = do
  transaction_id ← decode_varint
  start ← decode_varint
  span ← decode_varint
  count ← decode_varint
  refuse_if (not (at_least count 0 && leb count 4096)) (io invalid_data)
  matches ← read_matches count
  pure (record { transaction_id = transaction_id; start = start; span = span; matches = matches })

unfoldable pub decode : RawPacket → ℕ → Result TabCompleteResponsePacket
decode packet protocol_version =
    if not (packet.id == packet_id_for_version protocol_version)
      && not (packet.id == 0x0f)
      && not (packet.id == 0x10)
    then err (invalid_packet_id packet.id)
    else run read_fields packet.payload
