-- ===== src/Machine/Backend.antt =====
-- src/routing/state_machine.rs: `handle_backend_packet` and `handle_backend_eof`.
pub mod Laws
pub mod Recovery
use frame_mc.Prelude.{
  ℕ, List, [], ◌∷◌, ◌++◌, Bool, true, false, not, ◌||◌, ◌==◌, Option, none, some,
}
use frame_mc.Prelude.{map, list_eq, at_least, if◌then◌else◌}
use frame_mc.Error.{Result, ok, err, backend_connection_failed}
use frame_mc.Wire.{ascii}
use frame_mc.Packet.{RawPacket, is_protected_plugin_channel}
use frame_mc.Config.{BackendConfig}
use frame_mc.Play.Respawn
use frame_mc.Play.Respawn.{default_reset}
use frame_mc.Play.Respawn.FromLogin.{
  is_login_play_packet, extract_respawn_from_login_with_data_kept,
}
use frame_mc.Play.DeclareCommands.{
  is_declare_commands_packet, inject_proxy_commands_into_declare_commands,
}
use frame_mc.Script.Store.{sort}
use frame_mc.Machine.{World, Chance, PlayStateMachine, Play, section_sign, send_client, chat}
use frame_mc.Machine.Method.{◌>>=◌, ◌>>◌, pure, raise, attempt, update}
use frame_mc.Machine.Tracking.{track}
use frame_mc.Machine.Switch.{switch_server}

-- `config.servers.keys()`
unfoldable pub keys : List (List ℕ × BackendConfig) → List (List ℕ)
keys [] = []
keys ((name, backend) ∷ servers) = name ∷ keys servers

-- `format!("§eDisconnected from {}. Reconnecting to fallback server...", server)`
unfoldable pub disconnected_notice : List ℕ → List ℕ
disconnected_notice server =
    section_sign
    ++ (ascii "eDisconnected from " ++ (server ++ ascii ". Reconnecting to fallback server..."))

-- `format!("§eLost connection to {}. Returning to fallback server...", server)`
unfoldable pub lost_notice : List ℕ → List ℕ
lost_notice server =
    section_sign
    ++ (ascii "eLost connection to " ++ (server ++ ascii ". Returning to fallback server..."))

-- The packet for the play state that ends it.
unfoldable pub is_disconnect : RawPacket → Bool
is_disconnect packet = (packet.id == 0x1a) || (packet.id == 0x1b)

-- `KEEP_ALL_DATA`, or the attributes alone before version 764.
unfoldable pub data_kept : ℕ → ℕ
data_kept protocol_version = if at_least protocol_version 764 then 0x03 else 0x01

unfoldable pub respawn_packet : RawPacket → ℕ → RawPacket
respawn_packet packet v = elim (extract_respawn_from_login_with_data_kept packet v (data_kept v)) [
  | some respawn_pkt ↦ respawn_pkt
  | none ↦ Respawn.encode_with_version (record default_reset { data_kept = data_kept v }) v
]

module _ (w : World) where
  unfoldable pub on_default_server : PlayStateMachine w → Bool
  on_default_server m = list_eq m.session.current_server m.config.default_server

  -- The player is told, and moved to the default server.
  unfoldable pub fall_back : Chance → (List ℕ → List ℕ) → Play w Bool
  fall_back chance notice = do
    λ m. attempt (chat w (notice m.session.current_server)) m
    λ m. switch_server w chance m.config.default_server m

  unfoldable pub handle_disconnect : Chance → Play w Bool
  handle_disconnect chance m =
      if on_default_server m
      then (err backend_connection_failed, m)
      else fall_back chance disconnected_notice m

  -- After a transfer the first Login (Play) becomes a Respawn.
  unfoldable pub handle_login : RawPacket → Play w Bool
  handle_login packet m =
      let v = m.session.protocol_version in
      if m.server_transferred
      then (do send_client w (respawn_packet packet v); pure true)
          (record m { server_transferred = false })
      else (do send_client w packet; pure true) m

  unfoldable pub declared_packet : RawPacket → PlayStateMachine w → RawPacket
  declared_packet packet m =
      elim (inject_proxy_commands_into_declare_commands (λ s. w.lower (w.trim s)) packet
        m.session.protocol_version (sort (w.order (keys m.config.servers)))) [
          | ok injected ↦ injected
          | err e ↦ packet
        ]

  unfoldable pub route_backend : Chance → RawPacket → Play w Bool
  route_backend chance packet m =
      let v = m.session.protocol_version in
      if is_disconnect packet
      then handle_disconnect chance m
      else if is_login_play_packet packet.id v
      then handle_login packet m
      else if is_declare_commands_packet packet.id v
      then (do send_client w (declared_packet packet m); pure true) m
      else (do send_client w packet; pure true) m

  unfoldable pub handle_backend_packet : Chance → RawPacket → Play w Bool
  handle_backend_packet chance packet m =
      if is_protected_plugin_channel packet
      then (ok true, m)
      else route_backend chance packet (track w packet m)

  unfoldable pub handle_backend_eof : Chance → Play w Bool
  handle_backend_eof chance m =
      if on_default_server m then (ok false, m) else fall_back chance lost_notice m
