-- ===== src/Script/Examples.antt =====
-- The laws of the hooks, the host and the store at concrete inputs.
use frame_mc.Prelude.{ℕ, ◌≡◌, refl, List, [], ◌∷◌, true, false, Option, none, some}
use frame_mc.Error.{Result, ok}
use frame_mc.Wire.{ascii}
use frame_mc.Script.{
  Dynamic, Map, Shared, boolean, string, array, object, nil, item, entry, end, unit,
}
use frame_mc.Script.Events.{PlayerJoinEvent, PlayerTabCompleteEvent, command_event, default_join}
use frame_mc.Script.Hooks.{eval_join, eval_command, eval_tab_complete, contains}
use frame_mc.Script.Verdicts.{
  eval_join-eq-verdict, eval_command-eq-verdict, verdict, join_answers, command_verdict,
  command_answers,
}
use frame_mc.Script.Completions.{eval_tab_complete_gathers, is_distinct, offered}
use frame_mc.Script.Host.{ScriptHost, load_plugin_file}
use frame_mc.Script.HostLaws.{load_plugin_file_lem, names, find, compiled, add_name}
use frame_mc.Machine.Samples.{constant_scripts, host_of}

abbrev refusing : Option Dynamic
refusing = some (object (entry (ascii "allow") (boolean false) end))

abbrev to_hub : Option Dynamic
to_hub = some (object (entry (ascii "target_server") (string (ascii "hub")) end))

abbrev cancelling : Option Dynamic
cancelling = some (object (entry (ascii "cancel") (boolean true) end))

abbrev two_texts : Option Dynamic
two_texts = some (array (item (string (ascii "hub")) (item unit (item (string (ascii "hub")) nil))))

abbrev shared : Shared
shared = record { servers = []; default_server = ascii "lobby"; kv_store = end }

abbrev joining : PlayerJoinEvent
joining = record { player_name = ascii "Steve"; uuid = []; ip = []; protocol_version = 763 }

abbrev typing : PlayerTabCompleteEvent
typing = record { player_name = ascii "Steve"; command = ascii "/h"; current_server = [] }

eval_join-eq-verdict_example :
    (eval_join constant_scripts (to_hub ∷ refusing ∷ []) none joining shared).0
    ≡ verdict default_join
        (join_answers constant_scripts joining (to_hub ∷ refusing ∷ none ∷ []) shared)
eval_join-eq-verdict_example =
    eval_join-eq-verdict constant_scripts (to_hub ∷ refusing ∷ []) none joining shared

eval_command-eq-verdict_example :
    (eval_command constant_scripts
      (to_hub ∷ cancelling ∷ [])
      none
      (command_event (ascii "Steve") (ascii "/stop"))
      shared).0
    ≡ command_verdict (
        command_answers constant_scripts
          (command_event (ascii "Steve") (ascii "/stop"))
          (to_hub ∷ cancelling ∷ none ∷ [])
          shared)
eval_command-eq-verdict_example =
    eval_command-eq-verdict constant_scripts (to_hub ∷ cancelling ∷ []) none
      (command_event (ascii "Steve") (ascii "/stop")) shared

eval_tab_complete_gathers_example :
    (is_distinct (eval_tab_complete constant_scripts (two_texts ∷ []) two_texts typing shared).0
      ≡ true)
    × (contains
          (eval_tab_complete constant_scripts (two_texts ∷ []) two_texts typing shared).0
          (ascii "hub")
        ≡ offered constant_scripts typing (two_texts ∷ two_texts ∷ []) shared (ascii "hub"))
eval_tab_complete_gathers_example =
    eval_tab_complete_gathers constant_scripts typing (two_texts ∷ []) two_texts shared
      (ascii "hub")

abbrev host : ScriptHost constant_scripts
host = host_of cancelling

abbrev content : Result (List ℕ)
content = ok (ascii "fn f() { 1 }")

load_plugin_file_lem_example :
    ((load_plugin_file constant_scripts host (ascii "greet.rhai") (ascii "greet") content).1
      ≡ record host {
        plugins =
            (load_plugin_file constant_scripts host
              (ascii "greet.rhai")
              (ascii "greet")
              content).1.plugins;
      })
    × (names constant_scripts
          (load_plugin_file constant_scripts host
            (ascii "greet.rhai")
            (ascii "greet")
            content).1.plugins
        ≡ ascii "switcher" ∷ ascii "greet" ∷ [])
    × (find constant_scripts
          (ascii "greet")
          (load_plugin_file constant_scripts host
            (ascii "greet.rhai")
            (ascii "greet")
            content).1.plugins
        ≡ some (record { name = ascii "greet"; path = ascii "greet.rhai"; ast = none }))
    × (is_distinct (
          names constant_scripts
            (load_plugin_file constant_scripts host
              (ascii "greet.rhai")
              (ascii "greet")
              content).1.plugins)
        ≡ true)
unfolding find is_distinct names compiled add_name
load_plugin_file_lem_example =
    load_plugin_file_lem constant_scripts host (ascii "greet.rhai") (ascii "greet") (ascii "greet")
      content refl

abbrev store : Map
store = entry (ascii "a") (boolean true) (entry (ascii "b") (boolean false) end)
