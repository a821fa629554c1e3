-- ===== src/Play/Respawn.antt =====
-- src/routing/state_machine.rs: `RespawnPacket`. An `i64` is its bit pattern, and so is an `i8`.
pub mod RoundTrip
pub mod FromLogin
pub mod Header
pub mod SpawnInfo
pub mod Extract
use frame_mc.Prelude.{ℕ, ◌+◌, List, [], ◌∷◌, ◌++◌, Bool, true, false, not, ◌&&◌, ◌||◌, leb}
use frame_mc.Prelude.{
  ◌==◌, length, at_least, is_negative, as_usize, if◌then◌else◌, Option, none, some,
}
use frame_mc.Error.{Result, err, io, unexpected_eof, invalid_packet_id}
use frame_mc.Varint.{decode_varint, encode_varint}
use frame_mc.Wire.{
  Reader, ◌>>=◌, ◌>>◌, pure, run, refuse_if, put_block, get_string, get_u8, take_bytes, ascii,
}
use frame_mc.Wire.Long.{get_u64, put_u64}
use frame_mc.Packet.{RawPacket, new}

pub record RespawnPacket : Type 0 where
  pub dimension_type : List ℕ
  pub dimension_name : List ℕ
  pub hashed_seed : ℕ
  pub gamemode : ℕ
  pub previous_gamemode : ℕ
  pub is_debug : Bool
  pub is_flat : Bool
  pub data_kept : ℕ

abbrev pub default_reset : RespawnPacket
default_reset = record {
  dimension_type = ascii "minecraft:overworld";
  dimension_name = ascii "minecraft:overworld";
  hashed_seed = 0;
  gamemode = 0;
  previous_gamemode = 0xff;
  is_debug = false;
  is_flat = false;
  data_kept = 0;
}

unfoldable pub is_valid_respawn_id : ℕ → Bool
is_valid_respawn_id id =
    (id == 0x52)
    || (id == 0x51)
    || (id == 0x4c)
    || (id == 0x4a)
    || (id == 0x47)
    || (id == 0x45)
    || (id == 0x43)
    || (id == 0x3f)
    || (id == 0x3e)
    || (id == 0x3d)
    || (id == 0x39)
    || (id == 0x35)

-- `RESPAWN_PACKET_ID`
abbrev pub respawn_packet_id : ℕ
respawn_packet_id = 0x45

unfoldable pub packet_id_for_version : ℕ → ℕ
packet_id_for_version protocol_version =
    if at_least protocol_version 776
    then 0x52
    else if at_least protocol_version 768
    then 0x4c
    else if at_least protocol_version 766
    then 0x47
    else if at_least protocol_version 764
    then 0x45
    else if at_least protocol_version 762
    then 0x43
    else if protocol_version == 761
    then 0x3f
    else if at_least protocol_version 759
    then 0x3e
    else if at_least protocol_version 755
    then 0x3d
    else if at_least protocol_version 751
    then 0x39
    else if at_least protocol_version 340
    then 0x35
    else respawn_packet_id

-- `cursor.get_u8() != 0`
unfoldable pub get_bool : Reader Bool
get_bool = do b ← get_u8; pure (not (b == 0))

abbrev pub put_bool : Bool → List ℕ
put_bool true = 1 ∷ []
put_bool false = 0 ∷ []

-- The place of the last death, which is skipped: a text's length, the text, and eight bytes.
unfoldable pub skip_death : Bool → Reader (Unit {0})
skip_death false = pure tt
skip_death true = do
  len ← decode_varint
  refuse_if (is_negative len) (io unexpected_eof)
  _ ← take_bytes (as_usize len + 8)
  pure tt

-- The level of the sea, since version 768.
unfoldable pub skip_sea_level : ℕ → Reader (Unit {0})
skip_sea_level protocol_version =
    if at_least protocol_version 768 then (do _ ← decode_varint; pure tt) else pure tt

unfoldable pub read_modern : ℕ → Reader RespawnPacket
read_modern protocol_version = do
  _ ← decode_varint
  dimension_name ← get_string
  hashed_seed ← get_u64
  gamemode ← get_u8
  previous_gamemode ← get_u8
  is_debug ← get_bool
  is_flat ← get_bool
  has_death ← get_bool
  skip_death has_death
  _ ← decode_varint
  skip_sea_level protocol_version
  data_kept ← get_u8
  pure (record {
    dimension_type = dimension_name;
    dimension_name = dimension_name;
    hashed_seed = hashed_seed;
    gamemode = gamemode;
    previous_gamemode = previous_gamemode;
    is_debug = is_debug;
    is_flat = is_flat;
    data_kept = data_kept;
  })

unfoldable pub read_legacy : Reader RespawnPacket
read_legacy = do
  dimension_type ← get_string
  dimension_name ← get_string
  hashed_seed ← get_u64
  gamemode ← get_u8
  previous_gamemode ← get_u8
  is_debug ← get_bool
  is_flat ← get_bool
  data_kept ← get_u8
  pure (record {
    dimension_type = dimension_type;
    dimension_name = dimension_name;
    hashed_seed = hashed_seed;
    gamemode = gamemode;
    previous_gamemode = previous_gamemode;
    is_debug = is_debug;
    is_flat = is_flat;
    data_kept = data_kept;
  })

unfoldable pub decode_with_version : RawPacket → ℕ → Result RespawnPacket
decode_with_version packet protocol_version =
    if not (packet.id == packet_id_for_version protocol_version)
      && not (is_valid_respawn_id packet.id)
    then err (invalid_packet_id packet.id)
    else if at_least protocol_version 766
    then run (read_modern protocol_version) packet.payload
    else run read_legacy packet.payload

unfoldable pub decode : RawPacket → Result RespawnPacket
decode packet = decode_with_version packet 765

-- `if self.previous_gamemode < 0 { 255 } else { self.previous_gamemode as u8 }`
unfoldable pub previous_byte : ℕ → ℕ
previous_byte gamemode = if leb 128 gamemode then 255 else gamemode

unfoldable pub put_modern : RespawnPacket → ℕ → List ℕ
put_modern packet protocol_version =
    encode_varint 0
    ++ (put_block packet.dimension_name
        ++ (put_u64 packet.hashed_seed
            ++ (packet.gamemode ∷ previous_byte packet.previous_gamemode ∷ put_bool packet.is_debug
                ++ (put_bool packet.is_flat
                    ++ (0 ∷ encode_varint 0
                        ++ ((if at_least protocol_version 768 then encode_varint 63 else [])
                            ++ (packet.data_kept ∷ [])))))))

unfoldable pub put_legacy : RespawnPacket → List ℕ
put_legacy packet =
    put_block packet.dimension_type
    ++ (put_block packet.dimension_name
        ++ (put_u64 packet.hashed_seed
            ++ (packet.gamemode ∷ packet.previous_gamemode ∷ put_bool packet.is_debug
                ++ (put_bool packet.is_flat ++ (packet.data_kept ∷ 0 ∷ encode_varint 0)))))

unfoldable pub encode_with_version : RespawnPacket → ℕ → RawPacket
encode_with_version packet protocol_version = new (packet_id_for_version protocol_version) (
    if at_least protocol_version 766 then put_modern packet protocol_version else put_legacy packet)

unfoldable pub encode : RespawnPacket → RawPacket
encode packet = encode_with_version packet 765
