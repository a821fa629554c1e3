-- ===== src/Machine/Samples.antt =====
-- Inputs for the tests of the session: simple instances of the crates' functions, and a player in the
-- middle of a session of version 763.
use frame_mc.Prelude.{ℕ, List, [], ◌∷◌, ◌++◌, Bool, true, false, Option, none, some}
use frame_mc.Error.{ok, err, io, timed_out}
use frame_mc.Wire.{ascii}
use frame_mc.Samples.{stored, player, backend_of}
use frame_mc.Stream.{Stream}
use frame_mc.Config.{ProxyConfig, no_forwarding}
use frame_mc.Play.SystemChat.{Json}
use frame_mc.Script.{Dynamic, Rhai, end}
use frame_mc.Script.Host.{ScriptHost}
use frame_mc.Machine.{World, Chance, PlayerSession, PlayStateMachine}

-- JSON without escapes, which is not parsed.
abbrev pub plain_json : Json
plain_json = record {
  text_object = λ message. ascii "{\"text\":\"" ++ (message ++ ascii "\"}");
  text_of = λ text. none;
}

-- A script is the value that each of its functions returns; it defines all or none.
abbrev pub constant_scripts : Rhai
constant_scripts = record {
  Ast = Option Dynamic;
  empty = none;
  compile = λ text. some none;
  defines = λ ast name. elim ast [ none ↦ false | some v ↦ true ];
  call = λ ast name event shared. (ast, shared.kv_store);
}

abbrev pub sample_world : World
sample_world = record {
  zlib = stored;
  json = plain_json;
  rhai = constant_scripts;
  display = λ e. [];
  lossy = λ bytes. bytes;
  trim = λ text. text;
  lower = λ text. text;
  order = λ names. names;
  slot_order = λ slots. slots;
}

-- What a new backend of version 763 sends, and nothing that is late.
abbrev pub fresh : Stream
fresh = record { incoming = 2 ∷ 0x50 ∷ 7 ∷ []; written = [] }

abbrev pub reachable : Chance
reachable = record {
  connect = λ target backend profile client_ip protocol_version. ok (fresh, none);
  late = λ bytes. false;
}

abbrev pub unreachable : Chance
unreachable = record {
  connect = λ target backend profile client_ip protocol_version. err (io timed_out);
  late = λ bytes. false;
}

abbrev pub settings : ProxyConfig
settings = record {
  bind_address = ascii "0.0.0.0";
  bind_port = 25565;
  motd = ascii "hi";
  max_players = 20;
  online_mode = false;
  favicon = none;
  session_server_url = none;
  servers =
      (ascii "lobby", backend_of no_forwarding) ∷ (ascii "hub", backend_of no_forwarding) ∷ [];
  default_server = ascii "lobby";
  script_path = ascii "main.rhai";
  plugins_dir = ascii "plugins";
}

abbrev pub session_on : List ℕ → PlayerSession
session_on server = record {
  profile = player;
  client_ip = ascii "10.0.0.7";
  protocol_version = 763;
  current_server = server;
  registry_cache = record { registries = [] };
}

-- The scripts' host with one plugin that returns the value.
abbrev pub host_of : Option Dynamic → ScriptHost constant_scripts
host_of answer = record {
  ast = none;
  plugins = record { name = ascii "switcher"; path = ascii "switcher.rhai"; ast = answer } ∷ [];
  shared = record { servers = []; default_server = ascii "lobby"; kv_store = end };
}

-- The player's packet `03 10 01 02` is on its way, and so is one of the backend.
abbrev pub player_stream : Stream
player_stream = record { incoming = 3 ∷ 0x10 ∷ 1 ∷ 2 ∷ []; written = [] }

abbrev pub backend_stream : Stream
backend_stream = record { incoming = 2 ∷ 0x50 ∷ 9 ∷ []; written = [] }

-- A session on a server, with something of each kind tracked.
abbrev pub machine_on : List ℕ → Option Dynamic → Bool → PlayStateMachine sample_world
machine_on server answer transferred = record {
  client = player_stream;
  backend = some backend_stream;
  session = session_on server;
  config = settings;
  script_host = host_of answer;
  client_compression_threshold = none;
  backend_compression_threshold = none;
  compression_threshold = none;
  server_transferred = transferred;
  open_container_id = some 3;
  has_active_audio = false;
  active_boss_bars = [];
  active_scoreboard_objectives = ascii "kills" ∷ [];
  active_display_slots = 1 ∷ [];
  shut = [];
}
