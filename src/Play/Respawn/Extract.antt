-- ===== src/Play/Respawn/Extract.antt =====
-- The Respawn packet that a client gets for a Login (Play) shows the world of the Login.
use frame_mc.Prelude.{ℕ, ◌-◌, ◌≡◌, refl, arith, List, [], ◌∷◌, ◌++◌, true, false}
use frame_mc.Prelude.{length, at_least, length-append, take_front, drop_front, some}
use frame_mc.Error.{ok}
use frame_mc.Wire.{put_block}
use frame_mc.Wire.Laws.{get_string-put_string}
use frame_mc.Wire.Long.{put_u64, get_u64-put_u64}
use frame_mc.Packet.{new}
use frame_mc.Play.Respawn
use frame_mc.Play.Respawn.{
  RespawnPacket, get_bool, put_bool, skip_death, skip_sea_level, is_valid_respawn_id,
  packet_id_for_version,
}
use frame_mc.Play.Respawn.RoundTrip.{get_bool-put_bool}
use frame_mc.Play.Respawn.FromLogin.{between, cut_modern, extract_respawn_from_login_with_data_kept}
use frame_mc.Play.Respawn.Header.{
  LoginHeader, IsHeader, put_header, skip_header_lem, put_header-append,
}
use frame_mc.Play.Respawn.SpawnInfo.{
  SpawnInfo, IsSpawnInfo, put_spawn_info, shown, skip_spawn_info_lem, read_modern_spawn_info,
  put_spawn_info-append,
}
use frame_mc.Play.Respawn.RoundTrip.{IsRespawn}
use frame_mc.Play.Respawn.FromLogin.{read_spawn_info, read_login_fields}

between_lem :
    (front middle back : List ℕ)
    → between (front ++ (middle ++ back)) (middle ++ back) back ≡ middle
between_lem front middle back =
    let e : length (front ++ (middle ++ back)) - length (middle ++ back) ≡ length front =
      omega (arith, length-append front (middle ++ back)) in
    let d : length (front ++ (middle ++ back)) - length back - length front ≡ length middle =
      omega (arith, length-append front (middle ++ back), length-append middle back) in
    rw (e, d, drop_front front (middle ++ back), take_front middle back)

module _ (h : LoginHeader) (s : SpawnInfo) (v : ℕ) (is_h : IsHeader h) (is_s : IsSpawnInfo s) where
  cut_modern_lem :
      (tail : List ℕ)
      → cut_modern (put_header h (put_spawn_info s v tail)) v ≡ ok (put_spawn_info s v [])
  unfolding cut_modern
  cut_modern_lem tail =
      let info : List ℕ = put_spawn_info s v tail in
      let apart : between (put_header h info) info tail ≡ put_spawn_info s v [] =
        rw (put_header-append h info, put_spawn_info-append s v tail)
          (between_lem (put_header h []) (put_spawn_info s v []) tail) in
      ground (arith, skip_header_lem h info is_h, skip_spawn_info_lem s v is_s tail, apart)

-- From version 766 on, whatever follows the spawn info in a Login (Play), a backend's Login becomes
-- a Respawn that carries the spawn info byte for byte and the flag for the data kept, and that is
-- decoded to the same dimension, seed, game modes and flags.
pub extract_respawn_modern :
    (h : LoginHeader) (s : SpawnInfo) (tail : List ℕ) (id v k : ℕ)
    → IsHeader h
    → IsSpawnInfo s
    → at_least v 766 ≡ true
    → (extract_respawn_from_login_with_data_kept
          (new id (put_header h (put_spawn_info s v tail)))
          v
          k
        ≡ some (new (packet_id_for_version v) (put_spawn_info s v (k ∷ []))))
      × (Respawn.decode_with_version (new (packet_id_for_version v) (put_spawn_info s v (k ∷ []))) v
          ≡ ok (shown s k))
unfolding extract_respawn_from_login_with_data_kept Respawn.decode_with_version
extract_respawn_modern h s tail id v k is_h is_s modern = (
  rw (modern, cut_modern_lem h s v is_h is_s tail) (rw (← put_spawn_info-append s v (k ∷ [])) refl),
  ground (arith, read_modern_spawn_info s v is_s (k ∷ []) k refl),
)

-- The spawn info of the versions 764 and 765, and what follows it.
pub put_spawn_fields : RespawnPacket → List ℕ → List ℕ
put_spawn_fields r rest =
    put_block r.dimension_type
    ++ (put_block r.dimension_name
        ++ (put_u64 r.hashed_seed
            ++ (r.gamemode ∷ r.previous_gamemode ∷ put_bool r.is_debug
                ++ (put_bool r.is_flat ++ rest))))

read_spawn_info_lem :
    (r : RespawnPacket) (tail : List ℕ) (k : ℕ)
    → IsRespawn r
    → read_spawn_info k (put_spawn_fields r tail) ≡ ok (record r { data_kept = k }, tail)
unfolding read_spawn_info put_spawn_fields
read_spawn_info_lem r tail k h =
    let flat : List ℕ = put_bool r.is_flat ++ tail in
    let debug : List ℕ = put_bool r.is_debug ++ flat in
    let modes : List ℕ = r.gamemode ∷ r.previous_gamemode ∷ debug in
    let seed : List ℕ = put_u64 r.hashed_seed ++ modes in
    ground (
      arith,
      get_string-put_string r.dimension_type (put_block r.dimension_name ++ seed) h.dimension_type,
      get_string-put_string r.dimension_name seed h.dimension_name,
      get_u64-put_u64 r.hashed_seed modes h.hashed_seed,
      get_bool-put_bool r.is_debug flat,
      get_bool-put_bool r.is_flat tail,
    )

read_login_fields_lem :
    (h : LoginHeader) (r : RespawnPacket) (tail : List ℕ) (k : ℕ)
    → IsHeader h
    → IsRespawn r
    → read_login_fields (put_header h (put_spawn_fields r tail)) k ≡ ok (record r { data_kept = k })
unfolding read_login_fields
read_login_fields_lem h r tail k is_h is_r =
    ground
      (arith, skip_header_lem h (put_spawn_fields r tail) is_h, read_spawn_info_lem r tail k is_r)

-- In the versions 764 and 765, whatever follows the spawn info in a Login (Play), the backend's Login
-- becomes the Respawn packet with the dimension, seed, game modes and flags of the Login and the
-- given flag for the data kept.
pub extract_respawn_fields :
    (h : LoginHeader) (r : RespawnPacket) (tail : List ℕ) (id v k : ℕ)
    → IsHeader h
    → IsRespawn r
    → at_least v 766 ≡ false
    → at_least v 764 ≡ true
    → extract_respawn_from_login_with_data_kept
        (new id (put_header h (put_spawn_fields r tail)))
        v
        k
      ≡ some (Respawn.encode_with_version (record r { data_kept = k }) v)
unfolding extract_respawn_from_login_with_data_kept
extract_respawn_fields h r tail id v k is_h is_r before since =
    rw (before, since, read_login_fields_lem h r tail k is_h is_r) refl
