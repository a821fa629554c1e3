-- ===== src/Play/StateExamples.antt =====
-- Respawns, messages and trees of commands in some versions.
use frame_mc.Prelude.{
  ◌+◌, ℕ, ◌≡◌, refl, arith, List, [], ◌∷◌, ◌++◌, true, false, some, drop, length, IsShort,
}
use frame_mc.Error.{ok}
use frame_mc.Wire.{ascii}
use frame_mc.Wire.Utf8.{is_utf8}
use frame_mc.Packet.{new}
use frame_mc.Samples.{name, name-IsText, address, address-IsText}
use frame_mc.Play.SystemChat
use frame_mc.Play.SystemChat.{Json, IsJson, SystemChatMessagePacket, read_tags}
use frame_mc.Play.SystemChat.Laws.{read_tags_ends, decode-encode_chat}
use frame_mc.Play.Respawn
use frame_mc.Play.Respawn.{RespawnPacket}
use frame_mc.Play.Respawn.RoundTrip.{IsRespawn, seen_by, decode-encode_respawn}
use frame_mc.Play.Respawn.FromLogin.{extract_respawn_from_login_with_data_kept}
use frame_mc.Play.Respawn.Header.{LoginHeader, IsHeader, put_header}
use frame_mc.Play.Respawn.SpawnInfo.{SpawnInfo, IsSpawnInfo, put_spawn_info, shown}
use frame_mc.Play.Respawn.Extract.{extract_respawn_modern}
use frame_mc.Play.DeclareCommands.{
  Tree, inject_proxy_commands_into_declare_commands, is_declare_commands_packet, put_tree,
  read_tree, root_literals,
}
use frame_mc.Play.DeclareCommands.Laws.{IsTree, put_first_root, extend, inject_extends}

-- A text behind an empty object.
abbrev headed_json : Json
headed_json = record {
  text_object = λ message. ascii "{\"text\":\"\"}" ++ message;
  text_of = λ text. some (some (drop 11 text));
}

headed-IsJson : IsJson headed_json
unfolding is_utf8 frame_mc.Wire.Utf8.continues
headed-IsJson = record {
  utf8 = λ message h. h;
  long = λ message. omega arith;
  text_of-text_object = λ message. refl;
}

abbrev greeting : SystemChatMessagePacket
greeting = record { message = name; overlay = true }

decode-encode_chat_example :
    SystemChat.decode_with_version headed_json
      (SystemChat.encode_with_version headed_json greeting 763)
      763
    ≡ ok greeting
decode-encode_chat_example =
    decode-encode_chat headed_json headed-IsJson greeting 763 name-IsText.utf8
      (λ modern. omega arith) (λ legacy. omega arith)

-- The tags of a compound with a text, cut off in the middle of the next tag.
abbrev tags : List ℕ
tags = 8 ∷ 0 ∷ 4 ∷ ascii "text" ++ (0 ∷ 2 ∷ ascii "hi" ++ (1 ∷ 0 ∷ []))

read_tags_ends_example : read_tags 14 tags [] ≡ read_tags 13 tags []
read_tags_ends_example = read_tags_ends 13 tags [] (omega arith)

abbrev world : RespawnPacket
world = record {
  dimension_type = name;
  dimension_name = address;
  hashed_seed = 12345678901;
  gamemode = 1;
  previous_gamemode = 255;
  is_debug = false;
  is_flat = true;
  data_kept = 3;
}

world-IsRespawn : IsRespawn world
world-IsRespawn = record {
  dimension_type = name-IsText;
  dimension_name = address-IsText;
  hashed_seed = omega arith;
}

decode-encode_respawn_example :
    Respawn.decode_with_version (Respawn.encode_with_version world 768) 768 ≡ ok (seen_by 768 world)
decode-encode_respawn_example = decode-encode_respawn world 768 world-IsRespawn

abbrev header : LoginHeader
header = record {
  entity_id = 0 ∷ 0 ∷ 0 ∷ 7 ∷ [];
  is_hardcore = 0;
  dimension_names = name ∷ address ∷ [];
  max_players = 20;
  view_distance = 10;
  simulation_distance = 8;
  reduced_debug_info = 0;
  show_respawn_screen = 1;
  do_limited_crafting = 0;
}

header-IsHeader : IsHeader header
header-IsHeader = record {
  entity_id = refl;
  dimension_names = (omega arith, (omega arith, tt));
  count = omega arith;
  max_players = omega arith;
  view_distance = omega arith;
  simulation_distance = omega arith;
}

abbrev spawn : SpawnInfo
spawn = record {
  dimension = 2;
  dimension_name = name;
  hashed_seed = 12345678901;
  gamemode = 0;
  previous_gamemode = 255;
  is_debug = false;
  is_flat = false;
  death = some (address, 0 ∷ 0 ∷ 0 ∷ 0 ∷ 0 ∷ 0 ∷ 0 ∷ 9 ∷ []);
  portal_cooldown = 300;
  sea_level = 63;
}

spawn-IsSpawnInfo : IsSpawnInfo spawn
spawn-IsSpawnInfo = record {
  dimension = omega arith;
  dimension_name = name-IsText;
  hashed_seed = omega arith;
  death = (omega arith, refl);
  portal_cooldown = omega arith;
  sea_level = omega arith;
}

extract_respawn_modern_example :
    (extract_respawn_from_login_with_data_kept
        (new 0x2c (put_header header (put_spawn_info spawn 768 (1 ∷ []))))
        768
        3
      ≡ some (new (Respawn.packet_id_for_version 768) (put_spawn_info spawn 768 (3 ∷ []))))
    × (Respawn.decode_with_version
          (new (Respawn.packet_id_for_version 768) (put_spawn_info spawn 768 (3 ∷ [])))
          768
        ≡ ok (shown spawn 3))
extract_respawn_modern_example =
    extract_respawn_modern header spawn (1 ∷ []) 0x2c 768 3 header-IsHeader spawn-IsSpawnInfo refl

-- A root with one child, which is the node behind it.
abbrev tree : Tree
tree = record {
  original_count = 2;
  original_children = 1 ∷ [];
  rest_of_nodes = 5 ∷ 0 ∷ 2 ∷ ascii "me";
  root_index = 0;
}

tree-IsTree : IsTree tree
tree-IsTree = record {
  some_node = omega arith;
  original_count = omega arith;
  children = (omega arith, tt);
  few = omega arith;
  first = refl;
}

abbrev as_is : List ℕ → List ℕ
as_is text = text

declares : is_declare_commands_packet 0x11 765 ≡ true
unfolding is_declare_commands_packet
declares = refl

few_literals :
    IsShort (2 + 1 + 3 + length (root_literals as_is (ascii "survival" ∷ ascii "hub" ∷ [])))
unfolding root_literals frame_mc.Play.DeclareCommands.add_literals
few_literals = omega arith

inject_extends_example :
    (inject_proxy_commands_into_declare_commands as_is
        (new 0x11 (put_first_root tree))
        765
        (ascii "survival" ∷ ascii "hub" ∷ [])
      ≡ ok (new 0x11 (put_tree (root_literals as_is (ascii "survival" ∷ ascii "hub" ∷ [])) tree)))
    × (read_tree (put_tree (root_literals as_is (ascii "survival" ∷ ascii "hub" ∷ [])) tree)
        ≡ ok (some (extend (root_literals as_is (ascii "survival" ∷ ascii "hub" ∷ [])) tree)))
inject_extends_example =
    inject_extends as_is tree 0x11 765 (ascii "survival" ∷ ascii "hub" ∷ []) tree-IsTree refl
      declares few_literals
