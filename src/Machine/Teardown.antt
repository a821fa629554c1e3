-- ===== src/Machine/Teardown.antt =====
-- src/routing/state_machine.rs: `teardown_transferred_state` and the single resets of the client.
pub mod Laws
use frame_mc.Prelude.{ℕ, List, [], ◌∷◌, ◌++◌, Bool, true, false, Option, none, some}
use frame_mc.Error.{ok}
use frame_mc.Packet.{RawPacket}
use frame_mc.Play.CloseContainer
use frame_mc.Play.StopSound
use frame_mc.Play.BossBar
use frame_mc.Play.ScoreboardObjective
use frame_mc.Play.DisplayObjective
use frame_mc.Machine.{World, PlayStateMachine, Play, send_client}
use frame_mc.Machine.Method.{◌>>=◌, ◌>>◌, pure, attempt, update}
use frame_mc.Machine.Sets.{remove, nat_key}

unfoldable pub close_packet : ℕ → ℕ → RawPacket
close_packet v window_id = CloseContainer.encode_with_version (record { window_id = window_id }) v

unfoldable pub stop_packet : ℕ → RawPacket
stop_packet v = StopSound.encode_with_version StopSound.all v

unfoldable pub objective_packet : ℕ → List ℕ → RawPacket
objective_packet v name =
    ScoreboardObjective.encode_with_version (ScoreboardObjective.remove name) v

unfoldable pub slot_packet : ℕ → ℕ → RawPacket
slot_packet v slot = DisplayObjective.encode_with_version (DisplayObjective.clear slot) v

unfoldable pub boss_bar_packet : ℕ → List ℕ → RawPacket
boss_bar_packet v uuid = BossBar.encode_with_version (BossBar.remove uuid) v

module _ (w : World) where
  abbrev pub version : PlayStateMachine w → ℕ
  version m = m.session.protocol_version

  unfoldable pub sanitize_screen : ℕ → Play w (Unit {0})
  sanitize_screen window_id = do
    update (λ (m : PlayStateMachine w). record m { open_container_id = none })
    λ m. send_client w (close_packet (version m) window_id) m

  unfoldable pub stop_audio : Play w (Unit {0})
  stop_audio = do
    update (λ (m : PlayStateMachine w). record m { has_active_audio = false })
    λ m. send_client w (stop_packet (version m)) m

  unfoldable pub clear_display_objective : ℕ → Play w (Unit {0})
  clear_display_objective position = do
    update (λ (m : PlayStateMachine w). record m {
      active_display_slots = remove position m.active_display_slots;
    })
    λ m. send_client w (slot_packet (version m) position) m

  -- `for x in set.drain()`, one packet for each member; errors of the writes are ignored.
  unfoldable pub send_each : {A : Type 0} → (A → RawPacket) → List A → Play w (Unit {0})
  send_each f [] m = (ok tt, m)
  send_each f (x ∷ xs) m = send_each f xs (send_client w (f x) m).1

  unfoldable pub close_open : Option ℕ → Play w (Unit {0})
  close_open none m = (ok tt, m)
  close_open (some window_id) m =
      attempt (send_client w (close_packet (version m) window_id))
        (record m { open_container_id = none })

  unfoldable pub stop_active : Bool → Play w (Unit {0})
  stop_active false m = (ok tt, m)
  stop_active true m =
      attempt (send_client w (stop_packet (version m))) (record m { has_active_audio = false })

  unfoldable pub drain_objectives : Play w (Unit {0})
  drain_objectives m =
      send_each (objective_packet (version m)) (w.order m.active_scoreboard_objectives)
        (record m { active_scoreboard_objectives = [] })

  unfoldable pub drain_slots : Play w (Unit {0})
  drain_slots m =
      send_each (slot_packet (version m)) (w.slot_order m.active_display_slots)
        (record m { active_display_slots = [] })

  unfoldable pub drain_boss_bars : Play w (Unit {0})
  drain_boss_bars m =
      send_each (boss_bar_packet (version m)) (w.order m.active_boss_bars)
        (record m { active_boss_bars = [] })

  unfoldable pub teardown_transferred_state : Play w (Unit {0})
  teardown_transferred_state = do
    λ m. close_open m.open_container_id m
    λ m. stop_active m.has_active_audio m
    drain_objectives
    drain_slots
    drain_boss_bars
