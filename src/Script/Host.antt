-- ===== src/Script/Host.antt =====
-- src/script/engine.rs: the script host, its plugins and its active script. The limits of the
-- engine and the directory's listing are not modelled; a file's content is an argument.
use frame_mc.Prelude.{ℕ, suc, List, [], ◌∷◌, Bool, false, ◌||◌, none, some}
use frame_mc.Prelude.{list_eq, if◌then◌else◌}
use frame_mc.Error.{Result, ok, err, script_error}
use frame_mc.Wire.{ascii}
use frame_mc.Script.{Dynamic, Map, Shared, Rhai, end}
use frame_mc.Script.Events.{
  PlayerJoinEvent, JoinResult, PlayerCommandEvent, CommandResult, PlayerTabCompleteEvent,
}
use frame_mc.Script.Hooks.{eval_join, eval_command, eval_tab_complete}

-- `strip_prefix('\u{feff}').unwrap_or(&content)`
unfoldable pub strip_bom : List ℕ → List ℕ
strip_bom (a ∷ b ∷ c ∷ text) =
    if list_eq (a ∷ b ∷ c ∷ []) (0xef ∷ 0xbb ∷ 0xbf ∷ []) then text else a ∷ b ∷ c ∷ text
strip_bom text = text

module _ (rhai : Rhai) where
  open rhai use {Ast, compile, defines, call}

  pub record PluginInfo : Type 0 where
    pub name : List ℕ
    pub path : List ℕ
    pub ast : Ast

  pub record ScriptHost : Type 0 where
    pub ast : Ast
    pub plugins : List PluginInfo
    pub shared : Shared

  -- `ScriptHost::new`
  unfoldable pub new : ScriptHost
  new = record {
    ast = rhai.empty;
    plugins = [];
    shared = record { servers = []; default_server = ascii "lobby"; kv_store = end };
  }

  unfoldable pub set_servers : ScriptHost → List (List ℕ) → List ℕ → ScriptHost
  set_servers host servers default_server =
      let shared = record host.shared { servers = servers; default_server = default_server } in
      record host { shared = shared }

  -- The first plugin of the name is replaced, or a new one is pushed.
  unfoldable pub put_plugin : PluginInfo → List PluginInfo → List PluginInfo
  put_plugin plugin [] = plugin ∷ []
  put_plugin plugin (p ∷ ps) =
      if list_eq p.name plugin.name
      then record p { path = plugin.path; ast = plugin.ast } ∷ ps
      else p ∷ put_plugin plugin ps

  -- `name` is the path's stem; `content` is what reading the file gives.
  unfoldable pub load_plugin_file :
      ScriptHost → List ℕ → List ℕ → Result (List ℕ) → Result (Unit {0}) × ScriptHost
  load_plugin_file host path name (err e) = (err e, host)
  load_plugin_file host path name (ok content) = elim (compile (strip_bom content)) [
    | none ↦ (err script_error, host)
    | some ast ↦
        let plugin : PluginInfo = record { name = name; path = path; ast = ast } in
        (ok tt, record host { plugins = put_plugin plugin host.plugins })
  ]

  unfoldable pub load_script : ScriptHost → List ℕ → Result (Unit {0}) × ScriptHost
  load_script host script = elim (compile script) [
    | none ↦ (err script_error, host)
    | some new_ast ↦ (ok tt, record host { ast = new_ast })
  ]

  unfoldable pub reload : ScriptHost → Result (List ℕ) → Result (Unit {0}) × ScriptHost
  reload host (err e) = (err e, host)
  reload host (ok content) = load_script host (strip_bom content)

  -- The loop over the sorted files of a directory, each with its stem and content, which counts the
  -- plugins that could be loaded.
  unfoldable pub load_files :
      ScriptHost → List (List ℕ × List ℕ × Result (List ℕ)) → ℕ → ℕ × ScriptHost
  load_files host [] loaded = (loaded, host)
  load_files host ((path, name, content) ∷ files) loaded =
      let (res, host') = load_plugin_file host path name content in
      load_files host' files (elim res [ ok u ↦ suc loaded | err e ↦ loaded ])

  -- The first plugin that defines the function, or else the active script.
  unfoldable pub provider : List ℕ → List PluginInfo → Ast → Ast
  provider fn_name [] active = active
  provider fn_name (p ∷ ps) active =
      if defines p.ast fn_name then p.ast else provider fn_name ps active

  -- A call of one function with one argument; the engine fails where it is not defined.
  unfoldable pub call_fn : ScriptHost → List ℕ → Map → Result Dynamic × ScriptHost
  call_fn host fn_name arg =
      let (result, store) = call (provider fn_name host.plugins host.ast) fn_name arg host.shared in
      let shared = record host.shared { kv_store = store } in
      (elim result [ some v ↦ ok v | none ↦ err script_error ], record host { shared = shared })

  unfoldable pub any_defines : List ℕ → List PluginInfo → Bool
  any_defines fn_name [] = false
  any_defines fn_name (p ∷ ps) = defines p.ast fn_name || any_defines fn_name ps

  unfoldable pub has_function : ScriptHost → List ℕ → Bool
  has_function host fn_name = any_defines fn_name host.plugins || defines host.ast fn_name

  unfoldable pub asts : List PluginInfo → List Ast
  asts [] = []
  asts (p ∷ ps) = p.ast ∷ asts ps

  abbrev pub Evaluated : Type 0 → Type 0
  Evaluated A = A × ScriptHost

  unfoldable pub host_eval_command : ScriptHost → PlayerCommandEvent → Evaluated CommandResult
  host_eval_command host event =
      let (res, shared) = eval_command rhai (asts host.plugins) host.ast event host.shared in
      (res, record host { shared = shared })

  unfoldable pub host_eval_join : ScriptHost → PlayerJoinEvent → Evaluated JoinResult
  host_eval_join host event =
      let (res, shared) = eval_join rhai (asts host.plugins) host.ast event host.shared in
      (res, record host { shared = shared })

  unfoldable pub host_eval_tab_complete :
      ScriptHost → PlayerTabCompleteEvent → Evaluated (List (List ℕ))
  host_eval_tab_complete host event =
      let (res, shared) = eval_tab_complete rhai (asts host.plugins) host.ast event host.shared in
      (res, record host { shared = shared })
