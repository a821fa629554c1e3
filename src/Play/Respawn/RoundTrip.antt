-- ===== src/Play/Respawn/RoundTrip.antt =====
-- A Respawn packet is read back from its bytes.
use frame_mc.Prelude.{ℕ, ◌≡◌, arith, refl, List, [], ◌∷◌, ◌++◌, Bool, true, false, at_least, IsU64}
use frame_mc.Prelude.{if◌then◌else◌}
use frame_mc.Error.{ok}
use frame_mc.Varint.{encode_varint}
use frame_mc.Varint.RoundTrip.{decode_varint-encode_varint}
use frame_mc.Wire.{put_block, IsText}
use frame_mc.Wire.Laws.{get_string-put_string}
use frame_mc.Wire.Long.{put_u64, get_u64-put_u64}
use frame_mc.Play.Respawn.{
  RespawnPacket, get_bool, put_bool, skip_death, skip_sea_level, read_modern, read_legacy,
  decode_with_version, previous_byte, put_modern, put_legacy, encode_with_version,
}

-- What a client of the version sees: the two dimensions are one since version 766, and a negative
-- game mode is none.
pub seen_by : ℕ → RespawnPacket → RespawnPacket
seen_by protocol_version packet =
    if at_least protocol_version 766
    then record packet {
      dimension_type = packet.dimension_name;
      previous_gamemode = previous_byte packet.previous_gamemode;
    }
    else packet

pub record IsRespawn (packet : RespawnPacket) : Type 0 where
  pub dimension_type : IsText packet.dimension_type
  pub dimension_name : IsText packet.dimension_name
  pub hashed_seed : IsU64 packet.hashed_seed

pub get_bool-put_bool : (b : Bool) (rest : List ℕ) → get_bool (put_bool b ++ rest) ≡ ok (b, rest)
unfolding get_bool
get_bool-put_bool true rest = refl
get_bool-put_bool false rest = refl

pub sea_level : ℕ → List ℕ → List ℕ
sea_level v rest = (if at_least v 768 then encode_varint 63 else []) ++ rest

pub skip_sea_level_lem :
    (v : ℕ) (rest : List ℕ) → skip_sea_level v (sea_level v rest) ≡ ok (tt, rest)
unfolding skip_sea_level sea_level
skip_sea_level_lem v rest = ground (arith, decode_varint-encode_varint 63 rest (omega arith))

read_modern_lem :
    (packet : RespawnPacket) (v : ℕ)
    → IsRespawn packet
    → read_modern v (put_modern packet v)
      ≡ ok (
        record packet {
          dimension_type = packet.dimension_name;
          previous_gamemode = previous_byte packet.previous_gamemode;
        },
        [],
      )
unfolding read_modern put_modern skip_death sea_level
read_modern_lem packet v h =
    let end : List ℕ = sea_level v (packet.data_kept ∷ []) in
    let death : List ℕ = encode_varint 0 ++ end in
    let flat : List ℕ = put_bool packet.is_flat ++ (0 ∷ death) in
    let debug : List ℕ = put_bool packet.is_debug ++ flat in
    let modes : List ℕ = packet.gamemode ∷ previous_byte packet.previous_gamemode ∷ debug in
    let seed : List ℕ = put_u64 packet.hashed_seed ++ modes in
    ground (
      arith,
      decode_varint-encode_varint 0 (put_block packet.dimension_name ++ seed) (omega arith),
      get_string-put_string packet.dimension_name seed h.dimension_name,
      get_u64-put_u64 packet.hashed_seed modes h.hashed_seed,
      get_bool-put_bool packet.is_debug flat,
      get_bool-put_bool packet.is_flat (0 ∷ death),
      get_bool-put_bool false death,
      decode_varint-encode_varint 0 end (omega arith),
      skip_sea_level_lem v (packet.data_kept ∷ []),
    )

read_legacy_lem :
    (packet : RespawnPacket)
    → IsRespawn packet
    → read_legacy (put_legacy packet) ≡ ok (packet, 0 ∷ encode_varint 0)
unfolding read_legacy put_legacy
read_legacy_lem packet h =
    let end : List ℕ = packet.data_kept ∷ 0 ∷ encode_varint 0 in
    let flat : List ℕ = put_bool packet.is_flat ++ end in
    let debug : List ℕ = put_bool packet.is_debug ++ flat in
    let modes : List ℕ = packet.gamemode ∷ packet.previous_gamemode ∷ debug in
    let seed : List ℕ = put_u64 packet.hashed_seed ++ modes in
    ground (
      arith,
      get_string-put_string packet.dimension_type (put_block packet.dimension_name ++ seed)
          h.dimension_type,
      get_string-put_string packet.dimension_name seed h.dimension_name,
      get_u64-put_u64 packet.hashed_seed modes h.hashed_seed,
      get_bool-put_bool packet.is_debug flat,
      get_bool-put_bool packet.is_flat end,
    )

-- In every version, a Respawn packet whose names are texts is read back as the client sees it.
pub decode-encode_respawn :
    (packet : RespawnPacket) (v : ℕ)
    → IsRespawn packet
    → decode_with_version (encode_with_version packet v) v ≡ ok (seen_by v packet)
unfolding decode_with_version encode_with_version seen_by
decode-encode_respawn packet v h =
    ground (arith, read_modern_lem packet v h, read_legacy_lem packet h)
