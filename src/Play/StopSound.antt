-- ===== src/Play/StopSound.antt =====
-- src/routing/state_machine.rs: the packet that stops sounds.
use frame_mc.Prelude.{
  ℕ, List, [], ◌∷◌, ◌++◌, Option, none, some, not, ◌==◌, at_least, bit_and, if◌then◌else◌,
}
use frame_mc.Error.{Result, ok, err, invalid_packet_id}
use frame_mc.Varint.{decode_varint, encode_varint}
use frame_mc.Wire.{Reader, ◌>>=◌, pure, run, get_u8, get_string, put_block}
use frame_mc.Packet.{RawPacket, new}

pub record StopSoundPacket : Type 0 where
  pub flags : ℕ
  pub source : Option ℕ
  pub sound : Option (List ℕ)

abbrev pub all : StopSoundPacket
all = record { flags = 0; source = none; sound = none }

abbrev pub with_source : ℕ → StopSoundPacket
with_source source = record { flags = 1; source = some source; sound = none }

abbrev pub with_sound : List ℕ → StopSoundPacket
with_sound sound = record { flags = 2; source = none; sound = some sound }

abbrev pub with_source_and_sound : ℕ → List ℕ → StopSoundPacket
with_source_and_sound source sound = record { flags = 3; source = some source; sound = some sound }

-- `STOP_SOUND_PACKET_ID`
abbrev pub stop_sound_packet_id : ℕ
stop_sound_packet_id = 0x66

unfoldable pub packet_id_for_version : ℕ → ℕ
packet_id_for_version protocol_version =
    if at_least protocol_version 776
    then 0x77
    else if at_least protocol_version 768
    then 0x71
    else if at_least protocol_version 766
    then 0x6a
    else if at_least protocol_version 765
    then 0x68
    else if at_least protocol_version 764
    then stop_sound_packet_id
    else if at_least protocol_version 762
    then 0x63
    else if protocol_version == 761
    then 0x5f
    else if at_least protocol_version 759
    then 0x61
    else stop_sound_packet_id

-- The two optional fields, each behind its flag.
unfoldable pub put_source : ℕ → Option ℕ → List ℕ
put_source flags none = []
put_source flags (some src) = if not (bit_and flags 1 == 0) then encode_varint src else []

unfoldable pub put_sound : ℕ → Option (List ℕ) → List ℕ
put_sound flags none = []
put_sound flags (some snd) = if not (bit_and flags 2 == 0) then put_block snd else []

unfoldable pub encode_with_version : StopSoundPacket → ℕ → RawPacket
encode_with_version packet protocol_version =
    new (packet_id_for_version protocol_version)
      (packet.flags ∷ put_source packet.flags packet.source ++ put_sound packet.flags packet.sound)

unfoldable pub read_source : ℕ → Reader (Option ℕ)
read_source flags cursor =
    if not (bit_and flags 1 == 0)
    then (decode_varint >>= λ (src : ℕ). pure (some src)) cursor
    else ok (none, cursor)

unfoldable pub read_sound : ℕ → Reader (Option (List ℕ))
read_sound flags cursor =
    if not (bit_and flags 2 == 0)
    then (get_string >>= λ (snd : List ℕ). pure (some snd)) cursor
    else ok (none, cursor)

unfoldable pub read_fields : Reader StopSoundPacket
read_fields = do
  flags ← get_u8
  source ← read_source flags
  sound ← read_sound flags
  pure (record { flags = flags; source = source; sound = sound })

unfoldable pub decode : RawPacket → ℕ → Result StopSoundPacket
decode packet protocol_version =
    if not (packet.id == packet_id_for_version protocol_version)
    then err (invalid_packet_id packet.id)
    else run read_fields packet.payload

unfoldable pub encode : StopSoundPacket → RawPacket
encode packet = encode_with_version packet 765
