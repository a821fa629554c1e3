-- ===== src/Play/Resets.antt =====
-- The packets that reset a client's screen, sounds and displays are read back in every version.
use frame_mc.Prelude.{true}
use frame_mc.Wire.Utf8.{is_utf8, ascii-is_utf8}
use frame_mc.Prelude.{
  ℕ, ◌≡◌, ◌≢◌, arith, List, [], ◌∷◌, ◌++◌, none, some, ◌⊎◌, inl, inr, IsU32, bit_and,
}
use frame_mc.Error.{ok}
use frame_mc.Varint.{encode_varint}
use frame_mc.Varint.RoundTrip.{decode_varint-encode_varint}
use frame_mc.Wire.{put_block, IsText}
use frame_mc.Wire.Laws.{get_string-put_string, get_string_end, take_bytes-append, decode_varint_end}
use frame_mc.Profile.{IsUuid}
use frame_mc.Play.CloseContainer
use frame_mc.Play.CloseContainer.{CloseContainerPacket}
use frame_mc.Play.StopSound
use frame_mc.Play.StopSound.{StopSoundPacket, put_source, put_sound, read_source, read_sound}
use frame_mc.Play.BossBar
use frame_mc.Play.BossBar.{BossBarPacket}
use frame_mc.Play.ScoreboardObjective
use frame_mc.Play.ScoreboardObjective.{ScoreboardObjectivePacket}
use frame_mc.Play.DisplayObjective
use frame_mc.Play.DisplayObjective.{DisplayObjectivePacket}

close_container :
    (packet : CloseContainerPacket) (v : ℕ)
    → CloseContainer.decode (CloseContainer.encode_with_version packet v) v ≡ ok packet
unfolding CloseContainer.decode CloseContainer.encode_with_version CloseContainer.read_fields
close_container packet v = ground arith

boss_bar :
    (packet : BossBarPacket) (v : ℕ)
    → IsUuid packet.uuid
    → IsU32 packet.action
    → BossBar.decode (BossBar.encode_with_version packet v) v ≡ ok packet
unfolding BossBar.decode BossBar.encode_with_version BossBar.read_fields
boss_bar packet v hu ha = ground (
  arith,
  take_bytes-append packet.uuid (encode_varint packet.action) 16 (omega (arith, hu)),
  decode_varint_end packet.action ha,
)

scoreboard_objective :
    (packet : ScoreboardObjectivePacket) (v : ℕ)
    → IsText packet.name
    → ScoreboardObjective.decode (ScoreboardObjective.encode_with_version packet v) v ≡ ok packet
unfolding ScoreboardObjective.decode ScoreboardObjective.encode_with_version
    ScoreboardObjective.read_fields
scoreboard_objective packet v h =
    ground (arith, get_string-put_string packet.name (packet.action ∷ []) h)

display_objective :
    (packet : DisplayObjectivePacket) (v : ℕ)
    → IsU32 packet.position
    → IsText packet.name
    → DisplayObjective.decode (DisplayObjective.encode_with_version packet v) v ≡ ok packet
unfolding DisplayObjective.decode DisplayObjective.encode_with_version DisplayObjective.read_fields
display_objective packet v hp h = ground (
  arith,
  decode_varint-encode_varint packet.position (put_block packet.name) hp,
  get_string_end packet.name h,
)

-- In every version, the packets that close a window, remove a boss bar, remove an objective and
-- clear a slot are read back as what they are, for every window, every UUID of 16 bytes, every
-- name in UTF-8 that is shorter than 2 ^ 31, and every slot that is an `i32`.
pub decode-encode_resets :
    (window_id position v : ℕ) (uuid name : List ℕ)
    → IsUuid uuid
    → IsText name
    → IsU32 position
    → (CloseContainer.decode
          (CloseContainer.encode_with_version (record { window_id = window_id }) v)
          v
        ≡ ok (record { window_id = window_id }))
      × (BossBar.decode (BossBar.encode_with_version (BossBar.remove uuid) v) v
          ≡ ok (BossBar.remove uuid))
      × (ScoreboardObjective.decode
            (ScoreboardObjective.encode_with_version (ScoreboardObjective.remove name) v)
            v
          ≡ ok (ScoreboardObjective.remove name))
      × (DisplayObjective.decode
            (DisplayObjective.encode_with_version (DisplayObjective.clear position) v)
            v
          ≡ ok (DisplayObjective.clear position))
decode-encode_resets window_id position v uuid name hu hn hp = (
  close_container (record { window_id = window_id }) v,
  boss_bar (BossBar.remove uuid) v hu (omega arith),
  scoreboard_objective (ScoreboardObjective.remove name) v hn,
  display_objective (DisplayObjective.clear position) v hp
      (record { utf8 = no_text; short = omega arith }),
)
  where
    no_text : is_utf8 [] ≡ true
    no_text = ascii-is_utf8 [] tt

-- A packet whose fields are there exactly where its flags say so.
pub record IsStopSound (packet : StopSoundPacket) : Type 0 where
  pub source :
      ((packet.source ≡ none) × (bit_and packet.flags 1 ≡ 0))
      ⊎ ((src : ℕ) × (packet.source ≡ some src) × IsU32 src × (bit_and packet.flags 1 ≢ 0))
  pub sound :
      ((packet.sound ≡ none) × (bit_and packet.flags 2 ≡ 0))
      ⊎ ((snd : List ℕ) × (packet.sound ≡ some snd) × IsText snd × (bit_and packet.flags 2 ≢ 0))

read_source-put_source :
    (packet : StopSoundPacket) (rest : List ℕ)
    → IsStopSound packet
    → read_source packet.flags (put_source packet.flags packet.source ++ rest)
      ≡ ok (packet.source, rest)
unfolding read_source put_source
read_source-put_source packet rest h = elim h.source [
  | inl (e, f) ↦ rw e (ground arith)
  | inr (src, e, small, f) ↦ rw e (ground (arith, decode_varint-encode_varint src rest small))
]

read_sound-put_sound :
    (packet : StopSoundPacket)
    → IsStopSound packet
    → read_sound packet.flags (put_sound packet.flags packet.sound) ≡ ok (packet.sound, [])
unfolding read_sound put_sound
read_sound-put_sound packet h = elim h.sound [
  | inl (e, f) ↦ rw e (ground arith)
  | inr (snd, e, text, f) ↦ rw e (ground (arith, get_string_end snd text))
]

-- In every version, a packet that stops sounds is read back, if it has the fields that its flags
-- say and no others, the source an `i32` and the sound in UTF-8 and shorter than 2 ^ 31.
pub decode-encode_stop_sound :
    (packet : StopSoundPacket) (v : ℕ)
    → IsStopSound packet
    → StopSound.decode (StopSound.encode_with_version packet v) v ≡ ok packet
unfolding StopSound.decode StopSound.encode_with_version StopSound.read_fields
decode-encode_stop_sound packet v h = ground (
  arith,
  read_source-put_source packet (put_sound packet.flags packet.sound) h,
  read_sound-put_sound packet h,
)
