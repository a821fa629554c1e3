-- ===== src/Machine/Client.antt =====
-- src/routing/state_machine.rs: `handle_client_packet`.
pub mod Laws
use frame_mc.Prelude.{
  ℕ, suc, ◌+◌, ◌-◌, List, [], ◌∷◌, ◌++◌, Bool, true, false, not, ◌||◌, ◌&&◌, ◌==◌,
}
use frame_mc.Prelude.{
  Option, none, some, list_eq, length, drop, as_i32, at_least, below, if◌then◌else◌,
}
use frame_mc.Error.{Result, ok, err}
use frame_mc.Wire.{ascii}
use frame_mc.Packet.{RawPacket, is_protected_plugin_channel}
use frame_mc.Codec.{write_packet_with_compression}
use frame_mc.Stream.{Stream}
use frame_mc.Play.Ids.{is_serverbound_close_container_packet}
use frame_mc.Play.ChatCommand
use frame_mc.Play.ChatCommand.{ServerboundChatCommand, is_command_packet, normalized_command}
use frame_mc.Play.TabCompleteRequest
use frame_mc.Play.TabCompleteRequest.{TabCompleteRequestPacket, is_tab_complete_request}
use frame_mc.Play.TabCompleteResponse
use frame_mc.Script.Events.{PlayerCommandEvent, CommandResult, PlayerTabCompleteEvent}
use frame_mc.Script.Hooks.{is_empty}
use frame_mc.Script.Host.{host_eval_command, host_eval_tab_complete}
use frame_mc.Script.Store.{starts_with}
use frame_mc.Machine.{World, Chance, PlayStateMachine, Play, send_client, chat}
use frame_mc.Machine.Method.{◌>>=◌, ◌>>◌, pure, raise, attempt, update}
use frame_mc.Machine.Switch.{switch_server}
use frame_mc.Machine.Backend.{keys}

-- Whether the packet is a chat message, which is a command only behind a slash.
unfoldable pub is_chat_packet : ℕ → ℕ → Bool
is_chat_packet id v =
    (below v 766 && (id == 0x06))
    || (at_least v 766 && below v 768 && (id == 0x06))
    || (at_least v 768 && below v 776 && (id == 0x07))
    || (at_least v 776 && (id == 0x09))

unfoldable pub should_intercept : RawPacket → ℕ → ServerboundChatCommand → Bool
should_intercept packet v cmd_packet =
    not (is_chat_packet packet.id v) || starts_with cmd_packet.command (ascii "/")

-- The command that the scripts are asked about.
unfoldable pub intercepted : RawPacket → ℕ → Option ServerboundChatCommand
intercepted packet v =
    if is_command_packet packet.id v
    then elim (ChatCommand.decode_with_version packet v) [
      | err e ↦ none
      | ok cmd_packet ↦ if should_intercept packet v cmd_packet then some cmd_packet else none
    ]
    else none

-- The request for completions that the packet is.
unfoldable pub requested : RawPacket → ℕ → Option TabCompleteRequestPacket
requested packet v =
    if is_tab_complete_request packet.id v
    then elim (TabCompleteRequest.decode packet v) [ err e ↦ none | ok req ↦ some req ]
    else none

-- `cmd.strip_prefix(prefix)`
unfoldable pub strip_prefix : List ℕ → List ℕ → Option (List ℕ)
strip_prefix cmd prefix = if starts_with cmd prefix then some (drop (length prefix) cmd) else none

unfoldable pub matching : List ℕ → List (List ℕ) → List (List ℕ)
matching arg [] = []
matching arg (s_name ∷ names) =
    let rest = matching arg names in
    if is_empty arg || starts_with s_name arg then s_name ∷ rest else rest

-- The proxy's own commands that begin with the text.
unfoldable pub own_commands : List ℕ → List (List ℕ)
own_commands cmd =
    (if starts_with (ascii "/server") cmd then ascii "/server" ∷ [] else [])
    ++ ((if starts_with (ascii "/hub") cmd then ascii "/hub" ∷ [] else [])
        ++ (if starts_with (ascii "/lobby") cmd then ascii "/lobby" ∷ [] else []))

-- Where the last word of a text starts, and its length.
unfoldable pub last_space : ℕ → List ℕ → Option ℕ → Option ℕ
last_space i [] found = found
last_space i (c ∷ text) found = last_space (suc i) text (if c == b' ' then some i else found)

unfoldable pub last_word : List ℕ → ℕ × ℕ
last_word text = elim (last_space 0 text none) [
  | some i ↦ (as_i32 (i + 1), as_i32 (length text - i - 1))
  | none ↦ (0, as_i32 (length text))
]

module _ (w : World) where
  unfoldable pub built_in_suggestions : List ℕ → PlayStateMachine w → List (List ℕ)
  built_in_suggestions cmd m = elim (strip_prefix cmd (ascii "/server ")) [
    | some arg ↦ matching (w.trim arg) (w.order (keys m.config.servers))
    | none ↦
        if list_eq cmd (ascii "/server")
        then ascii "/server" ∷ []
        else if list_eq cmd (ascii "/")
        then ascii "/server" ∷ ascii "/hub" ∷ ascii "/lobby" ∷ []
        else own_commands cmd
  ]

  -- `if let Some(ref mut backend) = self.backend { write_packet_with_compression(backend, …)? }`
  unfoldable pub send_to : RawPacket → Option Stream → Play w (Unit {0})
  send_to packet none m = (ok tt, m)
  send_to packet (some b) m =
      elim (write_packet_with_compression w.zlib b.written packet m.backend_compression_threshold) [
        | err e ↦ (err e, m)
        | ok bytes ↦
            let backend : Stream = record b { written = bytes } in
            (ok tt, record m { backend = some backend })
      ]

  unfoldable pub send_backend : RawPacket → Play w (Unit {0})
  send_backend packet m = send_to packet m.backend m

  unfoldable pub forward : RawPacket → Play w Bool
  forward packet = do send_backend packet; pure true

  unfoldable pub answer_request : TabCompleteRequestPacket → List (List ℕ) → Play w Bool
  answer_request req suggestions m =
      let word = last_word req.text in
      let response =
        TabCompleteResponse.encode_with_version
          (record {
            transaction_id = req.transaction_id;
            start = word.0;
            span = word.1;
            matches = suggestions;
          })
          m.session.protocol_version in
      (do send_client w response; pure true) m

  -- The scripts' completions, or else the proxy's own.
  unfoldable pub suggestions_for :
      TabCompleteRequestPacket → PlayStateMachine w → List (List ℕ) × PlayStateMachine w
  suggestions_for req m =
      let event : PlayerTabCompleteEvent = record {
        player_name = m.session.profile.name;
        command = req.text;
        current_server = m.session.current_server;
      } in
      let (found, host) = host_eval_tab_complete w.rhai m.script_host event in
      let m' : PlayStateMachine w = record m { script_host = host } in
      (if is_empty found then built_in_suggestions req.text m' else found, m')

  unfoldable pub on_request : RawPacket → Option TabCompleteRequestPacket → Play w Bool
  on_request packet none m = forward packet m
  on_request packet (some req) m =
      let s = suggestions_for req m in
      if is_empty s.0 then forward packet s.1 else answer_request req s.0 s.1

  unfoldable pub handle_request : RawPacket → Play w Bool
  handle_request packet m = on_request packet (requested packet m.session.protocol_version) m

  -- The scripts' answer to a command.
  unfoldable pub command_answer :
      ServerboundChatCommand → PlayStateMachine w → CommandResult × PlayStateMachine w
  command_answer cmd_packet m =
      let event : PlayerCommandEvent = record {
        player_name = m.session.profile.name;
        command = normalized_command cmd_packet;
        current_server = m.session.current_server;
      } in
      let (res, host) = host_eval_command w.rhai m.script_host event in
      (res, record m { script_host = host })

  unfoldable pub tell : List ℕ → Play w (Unit {0})
  tell message m = if is_empty message then (ok tt, m) else chat w message m

  -- A reroute comes before a cancellation.
  unfoldable pub route_command : Chance → RawPacket → CommandResult → Play w Bool
  route_command chance packet res m =
      if not (is_empty res.reroute_server)
      then (do _ ← switch_server w chance res.reroute_server; pure true) m
      else if res.cancel
      then (ok true, m)
      else handle_request packet m

  unfoldable pub obey : Chance → RawPacket → CommandResult → Play w Bool
  obey chance packet res = do tell res.send_message; route_command chance packet res

  unfoldable pub on_command : Chance → RawPacket → Option ServerboundChatCommand → Play w Bool
  on_command chance packet none m = handle_request packet m
  on_command chance packet (some cmd_packet) m =
      let a = command_answer cmd_packet m in obey chance packet a.0 a.1

  unfoldable pub handle_command : Chance → RawPacket → Play w Bool
  handle_command chance packet m =
      on_command chance packet (intercepted packet m.session.protocol_version) m

  unfoldable pub close_on_request : RawPacket → PlayStateMachine w → PlayStateMachine w
  close_on_request packet m =
      if is_serverbound_close_container_packet packet.id m.session.protocol_version
      then record m { open_container_id = none }
      else m

  unfoldable pub handle_client_packet : Chance → RawPacket → Play w Bool
  handle_client_packet chance packet m =
      if is_protected_plugin_channel packet
      then (ok true, m)
      else handle_command chance packet (close_on_request packet m)
