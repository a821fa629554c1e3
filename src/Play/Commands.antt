-- ===== src/Play/Commands.antt =====
-- The packets of commands and of their completions are read back in every version.
use frame_mc.Prelude.{ℕ, ◌≤◌, ◌≡◌, arith, refl, List, [], ◌∷◌, ◌++◌, All, length, IsU32, as_i32}
use frame_mc.Error.{ok}
use frame_mc.Varint.{encode_varint}
use frame_mc.Varint.RoundTrip.{decode_varint-encode_varint}
use frame_mc.Wire.{put_block, IsText}
use frame_mc.Wire.Laws.{get_string-put_string, get_string_end}
use frame_mc.Play.ChatCommand
use frame_mc.Play.ChatCommand.{ServerboundChatCommand, is_command_packet}
use frame_mc.Play.TabCompleteRequest
use frame_mc.Play.TabCompleteRequest.{TabCompleteRequestPacket, is_tab_complete_request}
use frame_mc.Play.TabCompleteResponse
use frame_mc.Play.TabCompleteResponse.{
  TabCompleteResponsePacket, packet_id_for_version, put_matches, skip_flag, read_matches,
}

-- In every version, a command in UTF-8 that is shorter than 2 ^ 31 is read back from its packet.
pub decode-encode_command :
    (packet : ServerboundChatCommand) (v : ℕ)
    → IsText packet.command
    → ChatCommand.decode_with_version (ChatCommand.encode_with_version packet v) v ≡ ok packet
unfolding ChatCommand.decode_with_version ChatCommand.encode_with_version is_command_packet
    ChatCommand.packet_id
decode-encode_command packet v h = ground (arith, get_string_end packet.command h)

-- In every version, a request for completions is read back from its packet, for an id that is an
-- `i32` and a text in UTF-8 that is shorter than 2 ^ 31.
pub decode-encode_tab_request :
    (packet : TabCompleteRequestPacket) (v : ℕ)
    → IsU32 packet.transaction_id
    → IsText packet.text
    → TabCompleteRequest.decode (TabCompleteRequest.encode_with_version packet v) v ≡ ok packet
unfolding TabCompleteRequest.decode TabCompleteRequest.encode_with_version is_tab_complete_request
    TabCompleteRequest.packet_id TabCompleteRequest.read_fields
decode-encode_tab_request packet v hid h = ground (
  arith,
  decode_varint-encode_varint packet.transaction_id (put_block packet.text) hid,
  get_string_end packet.text h,
)

read_matches-put_matches :
    (ms : List (List ℕ)) → All IsText ms → read_matches (length ms) (put_matches ms) ≡ ok (ms, [])
unfolding read_matches put_matches skip_flag
read_matches-put_matches [] h = refl
read_matches-put_matches (m ∷ ms) h =
    ground
      (arith, get_string-put_string m (0 ∷ put_matches ms) h.0, read_matches-put_matches ms h.1)

pub record IsTabCompleteResponse (packet : TabCompleteResponsePacket) : Type 0 where
  pub transaction_id : IsU32 packet.transaction_id
  pub start : IsU32 packet.start
  pub span : IsU32 packet.span
  pub matches : All IsText packet.matches
  pub count : length packet.matches ≤ 4096

-- In every version, up to 4096 completions are read back from their packet, for numbers that are
-- `i32`s and texts in UTF-8 that are shorter than 2 ^ 31.
pub decode-encode_tab_response :
    (packet : TabCompleteResponsePacket) (v : ℕ)
    → IsTabCompleteResponse packet
    → TabCompleteResponse.decode (TabCompleteResponse.encode_with_version packet v) v ≡ ok packet
unfolding TabCompleteResponse.decode TabCompleteResponse.encode_with_version
    TabCompleteResponse.read_fields
decode-encode_tab_response packet v h =
    let counted : List ℕ =
      encode_varint (as_i32 (length packet.matches)) ++ put_matches packet.matches in
    ground (
      arith,
      decode_varint-encode_varint packet.transaction_id
          (encode_varint packet.start ++ (encode_varint packet.span ++ counted)) h.transaction_id,
      decode_varint-encode_varint packet.start (encode_varint packet.span ++ counted) h.start,
      decode_varint-encode_varint packet.span counted h.span,
      decode_varint-encode_varint (as_i32 (length packet.matches)) (put_matches packet.matches)
          (omega arith),
      read_matches-put_matches packet.matches h.matches,
      h.count,
    )
