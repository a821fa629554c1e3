-- ===== src/Play/Respawn/SpawnInfo.antt =====
-- The common spawn info since version 766: what the Respawn packet keeps of a Login (Play).
use frame_mc.Prelude.{ℕ, ◌+◌, ◌≡◌, refl, arith, List, [], ◌∷◌, ◌++◌, Bool, true, false}
use frame_mc.Prelude.{
  length, at_least, if◌then◌else◌, IsU32, IsU64, IsShort, append_assoc, length-append, Option, none,
  some,
}
use frame_mc.Error.{ok}
use frame_mc.Varint.{encode_varint}
use frame_mc.Varint.RoundTrip.{decode_varint-encode_varint}
use frame_mc.Wire.{put_block, IsText, take_bytes}
use frame_mc.Wire.Laws.{get_block-put_block, get_string-put_string, take_bytes-append}
use frame_mc.Wire.Long.{put_u64, get_u64-put_u64}
use frame_mc.Play.Respawn.{
  RespawnPacket, get_bool, put_bool, skip_death, skip_sea_level, read_modern,
}
use frame_mc.Play.Respawn.RoundTrip.{get_bool-put_bool}
use frame_mc.Play.Respawn.FromLogin.{skip_spawn_info}

pub record SpawnInfo : Type 0 where
  pub dimension : ℕ
  pub dimension_name : List ℕ
  pub hashed_seed : ℕ
  pub gamemode : ℕ
  pub previous_gamemode : ℕ
  pub is_debug : Bool
  pub is_flat : Bool
  pub death : Option (List ℕ × List ℕ)
  pub portal_cooldown : ℕ
  pub sea_level : ℕ

-- A dimension's name and a position of eight bytes.
abbrev pub IsDeath : Option (List ℕ × List ℕ) → Type 0
IsDeath none = Unit {0}
IsDeath (some (dimension, position)) = IsShort (length dimension) × (length position ≡ 8)

pub record IsSpawnInfo (s : SpawnInfo) : Type 0 where
  pub dimension : IsU32 s.dimension
  pub dimension_name : IsText s.dimension_name
  pub hashed_seed : IsU64 s.hashed_seed
  pub death : IsDeath s.death
  pub portal_cooldown : IsU32 s.portal_cooldown
  pub sea_level : IsU32 s.sea_level

pub put_death : Option (List ℕ × List ℕ) → List ℕ → List ℕ
put_death none rest = put_bool false ++ rest
put_death (some (dimension, position)) rest =
    put_bool true ++ (put_block dimension ++ (position ++ rest))

pub put_sea : ℕ → ℕ → List ℕ → List ℕ
put_sea v level rest = if at_least v 768 then encode_varint level ++ rest else rest

-- The info, and what follows it.
pub put_spawn_info : SpawnInfo → ℕ → List ℕ → List ℕ
put_spawn_info s v rest =
    encode_varint s.dimension
    ++ (put_block s.dimension_name
        ++ (put_u64 s.hashed_seed
            ++ (s.gamemode ∷ s.previous_gamemode ∷ put_bool s.is_debug
                ++ (put_bool s.is_flat
                    ++ put_death s.death
                        (encode_varint s.portal_cooldown ++ put_sea v s.sea_level rest)))))

-- The world that a client shows.
pub shown : SpawnInfo → ℕ → RespawnPacket
shown s data_kept = record {
  dimension_type = s.dimension_name;
  dimension_name = s.dimension_name;
  hashed_seed = s.hashed_seed;
  gamemode = s.gamemode;
  previous_gamemode = s.previous_gamemode;
  is_debug = s.is_debug;
  is_flat = s.is_flat;
  data_kept = data_kept;
}

has_death : Option (List ℕ × List ℕ) → Bool
has_death none = false
has_death (some d) = true

place : Option (List ℕ × List ℕ) → List ℕ → List ℕ
place none rest = rest
place (some (dimension, position)) rest = put_block dimension ++ (position ++ rest)

put_death-split :
    (d : Option (List ℕ × List ℕ)) (rest : List ℕ)
    → get_bool (put_death d rest) ≡ ok (has_death d, place d rest)
unfolding put_death has_death place
put_death-split none rest = get_bool-put_bool false rest
put_death-split (some (dimension, position)) rest =
    get_bool-put_bool true (put_block dimension ++ (position ++ rest))

skip_death_lem :
    (d : Option (List ℕ × List ℕ)) (rest : List ℕ)
    → IsDeath d
    → skip_death (has_death d) (place d rest) ≡ ok (tt, rest)
unfolding skip_death has_death place put_block
skip_death_lem none rest h = refl
skip_death_lem (some (dimension, position)) rest h = rw append_assoc (
    ground (
      arith,
      decode_varint-encode_varint (length dimension) (dimension ++ (position ++ rest)),
      rw append_assoc at (take_bytes-append (dimension ++ position) rest (length dimension + 8)),
      length-append dimension position,
    ))

skip_sea_lem :
    (v level : ℕ) (rest : List ℕ)
    → IsU32 level
    → skip_sea_level v (put_sea v level rest) ≡ ok (tt, rest)
unfolding skip_sea_level put_sea
skip_sea_lem v level rest h = ground (arith, decode_varint-encode_varint level rest h)

take_u64 : (n : ℕ) (rest : List ℕ) → take_bytes 8 (put_u64 n ++ rest) ≡ ok (put_u64 n, rest)
unfolding put_u64
take_u64 n rest = take_bytes-append (put_u64 n) rest 8 (omega arith)

take_bool : (b : Bool) (rest : List ℕ) → take_bytes 1 (put_bool b ++ rest) ≡ ok (put_bool b, rest)
take_bool true rest = take_bytes-append (put_bool true) rest 1 (omega arith)
take_bool false rest = take_bytes-append (put_bool false) rest 1 (omega arith)

module _ (s : SpawnInfo) (v : ℕ) (h : IsSpawnInfo s) (rest : List ℕ) where
  pub skip_spawn_info_lem : skip_spawn_info v (put_spawn_info s v rest) ≡ ok (tt, rest)
  unfolding skip_spawn_info put_spawn_info
  skip_spawn_info_lem =
      let end : List ℕ = put_sea v s.sea_level rest in
      let cool : List ℕ = encode_varint s.portal_cooldown ++ end in
      let death : List ℕ = put_death s.death cool in
      let flat : List ℕ = put_bool s.is_flat ++ death in
      let debug : List ℕ = put_bool s.is_debug ++ flat in
      let modes : List ℕ = s.gamemode ∷ s.previous_gamemode ∷ debug in
      let seed : List ℕ = put_u64 s.hashed_seed ++ modes in
      ground (
        arith,
        decode_varint-encode_varint s.dimension (put_block s.dimension_name ++ seed) h.dimension,
        get_block-put_block s.dimension_name seed,
        take_u64 s.hashed_seed modes,
        take_bytes-append (s.gamemode ∷ []) (s.previous_gamemode ∷ debug) 1,
        take_bytes-append (s.previous_gamemode ∷ []) debug 1,
        take_bool s.is_debug flat,
        take_bool s.is_flat death,
        put_death-split s.death cool,
        skip_death_lem s.death cool h.death,
        decode_varint-encode_varint s.portal_cooldown end h.portal_cooldown,
        skip_sea_lem v s.sea_level rest h.sea_level,
      )

  pub read_modern_spawn_info :
      (k : ℕ) → rest ≡ k ∷ [] → read_modern v (put_spawn_info s v rest) ≡ ok (shown s k, [])
  unfolding read_modern put_spawn_info shown
  read_modern_spawn_info k e =
      let end : List ℕ = put_sea v s.sea_level rest in
      let cool : List ℕ = encode_varint s.portal_cooldown ++ end in
      let death : List ℕ = put_death s.death cool in
      let flat : List ℕ = put_bool s.is_flat ++ death in
      let debug : List ℕ = put_bool s.is_debug ++ flat in
      let modes : List ℕ = s.gamemode ∷ s.previous_gamemode ∷ debug in
      let seed : List ℕ = put_u64 s.hashed_seed ++ modes in
      ground (
        arith,
        decode_varint-encode_varint s.dimension (put_block s.dimension_name ++ seed) h.dimension,
        get_string-put_string s.dimension_name seed h.dimension_name,
        get_u64-put_u64 s.hashed_seed modes h.hashed_seed,
        get_bool-put_bool s.is_debug flat,
        get_bool-put_bool s.is_flat death,
        put_death-split s.death cool,
        skip_death_lem s.death cool h.death,
        decode_varint-encode_varint s.portal_cooldown end h.portal_cooldown,
        skip_sea_lem v s.sea_level rest h.sea_level,
      )

put_sea-append :
    (v level : ℕ) (rest tail : List ℕ)
    → put_sea v level (rest ++ tail) ≡ put_sea v level rest ++ tail
unfolding put_sea
put_sea-append v level rest tail = ground (arith, append_assoc (encode_varint level) rest tail)

put_death-append :
    (d : Option (List ℕ × List ℕ)) (rest tail : List ℕ)
    → put_death d (rest ++ tail) ≡ put_death d rest ++ tail
unfolding put_death
put_death-append none rest tail = refl
put_death-append (some (dimension, position)) rest tail = simp append_assoc

pub put_spawn_info-append :
    (s : SpawnInfo) (v : ℕ) (rest : List ℕ)
    → put_spawn_info s v rest ≡ put_spawn_info s v [] ++ rest
unfolding put_spawn_info
put_spawn_info-append s v rest =
    rw
      (
        put_sea-append v s.sea_level [] rest,
        ← append_assoc (encode_varint s.portal_cooldown) (put_sea v s.sea_level []) rest,
        put_death-append s.death (encode_varint s.portal_cooldown ++ put_sea v s.sea_level []) rest,
      )
      (simp append_assoc)
