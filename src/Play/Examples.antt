-- ===== src/Play/Examples.antt =====
-- Packets of the Play state in some versions.
use frame_mc.Prelude.{◌≡◌, refl, false}
use frame_mc.Wire.{ascii}
use frame_mc.Play.ChatCommand
use frame_mc.Play.Ids.{is_open_window_packet}

normalized : ChatCommand.normalized_command (record { command = ascii "hub" }) ≡ ascii "/hub"
unfolding ChatCommand.normalized_command
normalized = refl

open_window_other_id : is_open_window_packet 0x31 766 ≡ false
unfolding is_open_window_packet
open_window_other_id = refl
