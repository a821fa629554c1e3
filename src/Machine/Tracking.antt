-- ===== src/Machine/Tracking.antt =====
-- src/routing/state_machine.rs: what a backend's packet tells about the client's screen, sounds,
-- boss bars and scoreboards, in `PlayStateMachine::handle_backend_packet`.
pub mod History
use frame_mc.Prelude.{ℕ, List, [], ◌∷◌, Bool, true, false, ◌&&◌, ◌==◌, Option, none, some, as_u8}
use frame_mc.Prelude.{if◌then◌else◌}
use frame_mc.Error.{ok, err}
use frame_mc.Varint.{decode_varint}
use frame_mc.Packet.{RawPacket}
use frame_mc.Play.Ids.{is_open_window_packet, is_sound_packet}
use frame_mc.Play.CloseContainer
use frame_mc.Play.StopSound
use frame_mc.Play.BossBar
use frame_mc.Play.BossBar.{BossBarPacket}
use frame_mc.Play.ScoreboardObjective
use frame_mc.Play.ScoreboardObjective.{ScoreboardObjectivePacket}
use frame_mc.Play.DisplayObjective
use frame_mc.Play.DisplayObjective.{DisplayObjectivePacket}
use frame_mc.Machine.{World, PlayStateMachine}
use frame_mc.Machine.Sets.{insert, remove, bytes_key, nat_key}
use frame_mc.Script.Hooks.{is_empty}

-- `BossBarPacket::ACTION_ADD` and `ScoreboardObjectivePacket::ACTION_CREATE`
abbrev pub action_add : ℕ
action_add = 0

abbrev pub action_create : ℕ
action_create = 0

-- `packet.payload.first().copied() == Some(0)`
unfoldable pub starts_with_zero : List ℕ → Bool
starts_with_zero [] = false
starts_with_zero (b ∷ rest) = b == 0

-- The window that is open after the packet, by the window open before it.
unfoldable pub track_container : ℕ → RawPacket → Option ℕ → Option ℕ
track_container v packet open_id =
    if is_open_window_packet packet.id v
    then elim (decode_varint packet.payload) [
      | ok (win_id, _) ↦ some (as_u8 win_id)
      | err e ↦ open_id
    ]
    else if packet.id == CloseContainer.packet_id_for_version v
    then none
    else open_id

unfoldable pub track_audio : ℕ → RawPacket → Bool → Bool
track_audio v packet active =
    if is_sound_packet packet.id v
    then true
    else if (packet.id == StopSound.packet_id_for_version v) && starts_with_zero packet.payload
    then false
    else active

unfoldable pub apply_boss_bar : BossBarPacket → List (List ℕ) → List (List ℕ)
apply_boss_bar bb bars =
    if bb.action == action_add
    then insert bb.uuid bars
    else if bb.action == BossBar.action_remove
    then remove bb.uuid bars
    else bars

unfoldable pub track_boss_bars : ℕ → RawPacket → List (List ℕ) → List (List ℕ)
track_boss_bars v packet bars =
    if packet.id == BossBar.packet_id_for_version v
    then elim (BossBar.decode packet v) [ ok bb ↦ apply_boss_bar bb bars | err e ↦ bars ]
    else bars

unfoldable pub apply_objective : ScoreboardObjectivePacket → List (List ℕ) → List (List ℕ)
apply_objective obj names =
    if obj.action == action_create
    then insert obj.name names
    else if obj.action == ScoreboardObjective.action_remove
    then remove obj.name names
    else names

unfoldable pub track_objectives : ℕ → RawPacket → List (List ℕ) → List (List ℕ)
track_objectives v packet names =
    if packet.id == ScoreboardObjective.packet_id_for_version v
    then elim (ScoreboardObjective.decode packet v) [
      | ok obj ↦ apply_objective obj names
      | err e ↦ names
    ]
    else names

unfoldable pub apply_display : DisplayObjectivePacket → List ℕ → List ℕ
apply_display disp slots =
    if is_empty disp.name then remove disp.position slots else insert disp.position slots

unfoldable pub track_slots : ℕ → RawPacket → List ℕ → List ℕ
track_slots v packet slots =
    if packet.id == DisplayObjective.packet_id_for_version v
    then elim (DisplayObjective.decode packet v) [
      | ok disp ↦ apply_display disp slots
      | err e ↦ slots
    ]
    else slots

module _ (w : World) where
  unfoldable pub track : RawPacket → PlayStateMachine w → PlayStateMachine w
  track packet m =
      let v = m.session.protocol_version in
      record m {
        open_container_id = track_container v packet m.open_container_id;
        has_active_audio = track_audio v packet m.has_active_audio;
        active_boss_bars = track_boss_bars v packet m.active_boss_bars;
        active_scoreboard_objectives = track_objectives v packet m.active_scoreboard_objectives;
        active_display_slots = track_slots v packet m.active_display_slots;
      }
