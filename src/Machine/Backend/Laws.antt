-- ===== src/Machine/Backend/Laws.antt =====
-- What a client gets of a backend's packets, and how a lost backend is answered.
use frame_mc.Prelude.{◌≡◌, false}
use frame_mc.Prelude.{ℕ, ◌⊎◌, some, none, if◌then◌else◌}
use frame_mc.Packet.{RawPacket}
use frame_mc.Play.Respawn
use frame_mc.Play.Respawn.{default_reset}
use frame_mc.Play.Respawn.FromLogin.{
  is_login_play_packet, extract_respawn_from_login_with_data_kept,
}
use frame_mc.Machine.{World, PlayStateMachine}
use frame_mc.Machine.Method.{◌>>◌}
use frame_mc.Machine.Backend.{data_kept, respawn_packet}

-- A Respawn for the version: it is cut out of the Login, or where that cannot be done the reset to
-- the overworld, with the flag for the data kept.
pub record IsRespawnOf (login : RawPacket) (v : ℕ) (shown : RawPacket) : Type 0 where
  pub id : shown.id ≡ Respawn.packet_id_for_version v
  pub no_login : is_login_play_packet shown.id v ≡ false
  pub made :
      (extract_respawn_from_login_with_data_kept login v (data_kept v) ≡ some shown)
      ⊎ ((extract_respawn_from_login_with_data_kept login v (data_kept v) ≡ none)
          × (shown
              ≡ Respawn.encode_with_version (record default_reset { data_kept = data_kept v }) v))

module _ (w : World) where
  -- The packet that a client gets for a Login (Play).
  pub shown_login : RawPacket → PlayStateMachine w → RawPacket
  shown_login packet m =
      if m.server_transferred then respawn_packet packet m.session.protocol_version else packet
