-- ===== src/Play/Respawn/FromLogin.antt =====
-- src/routing/state_machine.rs: the Respawn packet that is cut out of a backend's Login (Play), and
-- the ids of the latter.
use frame_mc.Prelude.{ℕ, zero, suc, ◌-◌, List, [], ◌∷◌, ◌++◌, Bool, ◌||◌, ltb, ◌==◌}
use frame_mc.Prelude.{length, take, drop, at_least, is_negative, if◌then◌else◌, Option, none, some}
use frame_mc.Error.{Result, ok, err, io, invalid_data}
use frame_mc.Varint.{decode_varint}
use frame_mc.Wire.{
  Reader, ◌>>=◌, ◌>>◌, pure, run, refuse_if, get_block, get_string, get_u8, take_bytes,
}
use frame_mc.Wire.Long.{get_u64}
use frame_mc.Packet.{RawPacket, new}
use frame_mc.Play.Respawn
use frame_mc.Play.Respawn.{RespawnPacket, default_reset, get_bool, skip_death, skip_sea_level}

unfoldable pub is_login_play_packet : ℕ → ℕ → Bool
is_login_play_packet id protocol_version =
    if at_least protocol_version 776
    then id == 0x31
    else if at_least protocol_version 768
    then id == 0x2c
    else if at_least protocol_version 766
    then id == 0x2b
    else if at_least protocol_version 764
    then id == 0x29
    else if at_least protocol_version 762
    then id == 0x28
    else if protocol_version == 761
    then id == 0x24
    else if at_least protocol_version 759
    then id == 0x25
    else if at_least protocol_version 755
    then id == 0x26
    else if at_least protocol_version 735
    then id == 0x24
    else if at_least protocol_version 573
    then id == 0x26
    else if at_least protocol_version 393
    then id == 0x25
    else id == 0x23

-- `for _ in 0..dim_count`
unfoldable pub skip_names : ℕ → Reader (Unit {0})
skip_names zero = pure tt
skip_names (suc n) = do _ ← get_block; skip_names n

-- The fields of a Login (Play) before the common spawn info.
unfoldable pub skip_header : Reader (Unit {0})
skip_header = do
  _ ← take_bytes 4
  _ ← take_bytes 1
  dim_count ← decode_varint
  refuse_if (is_negative dim_count || ltb 1024 dim_count) (io invalid_data)
  skip_names dim_count
  _ ← decode_varint
  _ ← decode_varint
  _ ← decode_varint
  _ ← take_bytes 1
  _ ← take_bytes 1
  _ ← take_bytes 1
  pure tt

-- The common spawn info since version 766.
unfoldable pub skip_spawn_info : ℕ → Reader (Unit {0})
skip_spawn_info protocol_version = do
  _ ← decode_varint
  _ ← get_block
  _ ← take_bytes 8
  _ ← take_bytes 1
  _ ← take_bytes 1
  _ ← take_bytes 1
  _ ← take_bytes 1
  has_death ← get_bool
  skip_death has_death
  _ ← decode_varint
  skip_sea_level protocol_version

-- The common spawn info of the versions 764 and 765.
unfoldable pub read_spawn_info : ℕ → Reader RespawnPacket
read_spawn_info data_to_keep = do
  dimension_type ← get_string
  dimension_name ← get_string
  hashed_seed ← get_u64
  gamemode ← get_u8
  previous_gamemode ← get_u8
  is_debug ← get_bool
  is_flat ← get_bool
  pure (record {
    dimension_type = dimension_type;
    dimension_name = dimension_name;
    hashed_seed = hashed_seed;
    gamemode = gamemode;
    previous_gamemode = previous_gamemode;
    is_debug = is_debug;
    is_flat = is_flat;
    data_kept = data_to_keep;
  })

-- `&payload[start..end]`, for the places where two cursors stand.
abbrev pub between : List ℕ → List ℕ → List ℕ → List ℕ
between payload start end =
    let spawn_info_start = length payload - length start in
    let spawn_info_end = length payload - length end in
    take (spawn_info_end - spawn_info_start) (drop spawn_info_start payload)

unfoldable pub cut_modern : List ℕ → ℕ → Result (List ℕ)
cut_modern payload protocol_version = elim (skip_header payload) [
  | err e ↦ err e
  | ok (_, start) ↦ elim (skip_spawn_info protocol_version start) [
    | err e ↦ err e
    | ok (_, end) ↦ ok (between payload start end)
  ]
]

unfoldable pub read_login_fields : List ℕ → ℕ → Result RespawnPacket
read_login_fields payload data_to_keep = elim (skip_header payload) [
  | err e ↦ err e
  | ok (_, start) ↦ run (read_spawn_info data_to_keep) start
]

-- `.ok()`
abbrev pub to_option : {A : Type 0} → Result A → Option A
to_option (ok a) = some a
to_option (err e) = none

abbrev pub map_option : {A B : Type 0} → (A → B) → Option A → Option B
map_option f none = none
map_option f (some a) = some (f a)

unfoldable pub extract_respawn_from_login_with_data_kept : RawPacket → ℕ → ℕ → Option RawPacket
extract_respawn_from_login_with_data_kept login_pkt protocol_version data_to_keep =
    if at_least protocol_version 766
    then map_option
        (λ spawn_info.
          new (Respawn.packet_id_for_version protocol_version) (spawn_info ++ (data_to_keep ∷ [])))
        (to_option (cut_modern login_pkt.payload protocol_version))
    else if at_least protocol_version 764
    then map_option (λ respawn. Respawn.encode_with_version respawn protocol_version)
        (to_option (read_login_fields login_pkt.payload data_to_keep))
    else some (
        Respawn.encode_with_version (record default_reset { data_kept = data_to_keep })
          protocol_version)

unfoldable pub extract_respawn_from_login : RawPacket → ℕ → Option RawPacket
extract_respawn_from_login login_pkt protocol_version =
    extract_respawn_from_login_with_data_kept login_pkt protocol_version 0x00
