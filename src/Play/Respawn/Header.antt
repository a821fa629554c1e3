-- ===== src/Play/Respawn/Header.antt =====
-- The Respawn packet that a client gets for a Login (Play) shows the world of the Login.
use frame_mc.Prelude.{ℕ, ◌≤◌, ◌≡◌, refl, arith, List, [], ◌∷◌, ◌++◌}
use frame_mc.Prelude.{length, IsU32, IsShort, All, as_i32, append_assoc}
use frame_mc.Error.{ok}
use frame_mc.Varint.{encode_varint}
use frame_mc.Varint.RoundTrip.{decode_varint-encode_varint}
use frame_mc.Wire.{put_block}
use frame_mc.Wire.Laws.{get_block-put_block, take_bytes-append}
use frame_mc.Play.Respawn.FromLogin.{skip_names, skip_header}

-- The fields of a Login (Play) before the spawn info, as the code's comment lists them.
pub record LoginHeader : Type 0 where
  pub entity_id : List ℕ
  pub is_hardcore : ℕ
  pub dimension_names : List (List ℕ)
  pub max_players : ℕ
  pub view_distance : ℕ
  pub simulation_distance : ℕ
  pub reduced_debug_info : ℕ
  pub show_respawn_screen : ℕ
  pub do_limited_crafting : ℕ

pub record IsHeader (h : LoginHeader) : Type 0 where
  pub entity_id : length h.entity_id ≡ 4
  pub dimension_names : All (λ name. IsShort (length name)) h.dimension_names
  pub count : length h.dimension_names ≤ 1024
  pub max_players : IsU32 h.max_players
  pub view_distance : IsU32 h.view_distance
  pub simulation_distance : IsU32 h.simulation_distance

pub put_names : List (List ℕ) → List ℕ → List ℕ
put_names [] rest = rest
put_names (name ∷ names) rest = put_block name ++ put_names names rest

-- The header, and what follows it.
pub put_header : LoginHeader → List ℕ → List ℕ
put_header h rest =
    h.entity_id
    ++ (h.is_hardcore ∷ encode_varint (as_i32 (length h.dimension_names))
        ++ put_names h.dimension_names (
            encode_varint h.max_players
            ++ (encode_varint h.view_distance
                ++ (encode_varint h.simulation_distance
                    ++ (h.reduced_debug_info ∷ h.show_respawn_screen ∷ h.do_limited_crafting
                        ∷ rest)))))

skip_names_lem :
    (names : List (List ℕ)) (rest : List ℕ)
    → All (λ name. IsShort (length name)) names
    → skip_names (length names) (put_names names rest) ≡ ok (tt, rest)
unfolding skip_names put_names
skip_names_lem [] rest h = refl
skip_names_lem (name ∷ names) rest h =
    ground
      (arith, get_block-put_block name (put_names names rest) h.0, skip_names_lem names rest h.1)

pub skip_header_lem :
    (h : LoginHeader) (rest : List ℕ) → IsHeader h → skip_header (put_header h rest) ≡ ok (tt, rest)
unfolding skip_header put_header
skip_header_lem h rest ok_h =
    let flags : List ℕ =
      h.reduced_debug_info ∷ h.show_respawn_screen ∷ h.do_limited_crafting ∷ rest in
    let sim : List ℕ = encode_varint h.simulation_distance ++ flags in
    let view : List ℕ = encode_varint h.view_distance ++ sim in
    let players : List ℕ = encode_varint h.max_players ++ view in
    let names : List ℕ = put_names h.dimension_names players in
    let count : List ℕ = encode_varint (as_i32 (length h.dimension_names)) ++ names in
    ground (
      arith,
      take_bytes-append h.entity_id (h.is_hardcore ∷ count) 4,
      take_bytes-append (h.is_hardcore ∷ []) count 1,
      decode_varint-encode_varint (length h.dimension_names) names,
      skip_names_lem h.dimension_names players ok_h.dimension_names,
      decode_varint-encode_varint h.max_players view ok_h.max_players,
      decode_varint-encode_varint h.view_distance sim ok_h.view_distance,
      decode_varint-encode_varint h.simulation_distance flags ok_h.simulation_distance,
      take_bytes-append (h.reduced_debug_info ∷ [])
          (h.show_respawn_screen ∷ h.do_limited_crafting ∷ rest) 1,
      take_bytes-append (h.show_respawn_screen ∷ []) (h.do_limited_crafting ∷ rest) 1,
      take_bytes-append (h.do_limited_crafting ∷ []) rest 1,
    )

put_names-append :
    (names : List (List ℕ)) (rest tail : List ℕ)
    → put_names names (rest ++ tail) ≡ put_names names rest ++ tail
unfolding put_names
put_names-append [] rest tail = refl
put_names-append (name ∷ names) rest tail = rw (put_names-append names rest tail) (rw append_assoc)

pub put_header-append :
    (h : LoginHeader) (rest : List ℕ) → put_header h rest ≡ put_header h [] ++ rest
unfolding put_header
put_header-append h rest = simp (append_assoc, ← put_names-append)
