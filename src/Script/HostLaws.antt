-- ===== src/Script/HostLaws.antt =====
-- The plugins of a host keep distinct names, and what fails to load changes nothing.
use frame_mc.Prelude.{ℕ, ◌≡◌, arith, refl, List, [], ◌∷◌, true, ◌||◌, ◌++◌}
use frame_mc.Prelude.{
  Option, none, some, Bool-cases, if◌then◌else◌, Option-cases, inl, inr, list_eq, list_eq_sound,
  list_eq_refl,
}
use frame_mc.Error.{Result, ProxyError, ok, err}
use frame_mc.Script.{Rhai}
use frame_mc.Script.Hooks.{contains}
use frame_mc.Script.Completions.{is_distinct}
use frame_mc.Script.Host.{
  PluginInfo, ScriptHost, strip_bom, put_plugin, load_plugin_file, load_script, reload, provider,
  any_defines, has_function,
}

module _ (rhai : Rhai) where
  open rhai use {Ast, compile, defines}

  unfoldable pub names : List (PluginInfo rhai) → List (List ℕ)
  names [] = []
  names (p ∷ ps) = p.name ∷ names ps

  -- The plugin of a name.
  unfoldable pub find : List ℕ → List (PluginInfo rhai) → Option (PluginInfo rhai)
  find name [] = none
  find name (p ∷ ps) = if list_eq p.name name then some p else find name ps

  -- A name keeps its place, or comes behind the others.
  unfoldable pub add_name : List ℕ → List (List ℕ) → List (List ℕ)
  add_name name known = if contains known name then known else known ++ (name ∷ [])

  contains-names-put_plugin :
      (plugin : PluginInfo rhai) (ps : List (PluginInfo rhai)) (s : List ℕ)
      → contains (names (put_plugin rhai plugin ps)) s
        ≡ (list_eq plugin.name s || contains (names ps) s)
  unfolding names put_plugin
  contains-names-put_plugin plugin [] s = ground arith
  contains-names-put_plugin plugin (p ∷ ps) s =
      ground (arith, list_eq_sound p.name plugin.name, contains-names-put_plugin plugin ps s)

  put_plugin-is_distinct :
      (plugin : PluginInfo rhai) (ps : List (PluginInfo rhai))
      → is_distinct (names ps) ≡ true
      → is_distinct (names (put_plugin rhai plugin ps)) ≡ true
  unfolding names put_plugin is_distinct
  put_plugin-is_distinct plugin [] h = refl
  put_plugin-is_distinct plugin (p ∷ ps) h = ground (
    arith,
    list_eq_sound plugin.name p.name,
    list_eq_refl p.name,
    contains-names-put_plugin plugin ps p.name,
    put_plugin-is_distinct plugin ps,
  )

  names-put_plugin :
      (plugin : PluginInfo rhai) (ps : List (PluginInfo rhai))
      → names (put_plugin rhai plugin ps) ≡ add_name plugin.name (names ps)
  unfolding names put_plugin add_name
  names-put_plugin plugin [] = refl
  names-put_plugin plugin (p ∷ ps) = ground (arith, names-put_plugin plugin ps)

  find-put_plugin :
      (plugin : PluginInfo rhai) (ps : List (PluginInfo rhai)) (s : List ℕ)
      → find s (put_plugin rhai plugin ps)
        ≡ (if list_eq plugin.name s then some plugin else find s ps)
  unfolding find put_plugin
  find-put_plugin plugin [] s = refl
  find-put_plugin plugin (p ∷ ps) s = elim (Bool-cases (list_eq p.name plugin.name)) [
    | inl e ↦ let same = list_eq_sound p.name plugin.name e in ground (arith, same)
    | inr n ↦ ground (
      arith,
      list_eq_sound plugin.name s,
      list_eq_sound p.name s,
      list_eq_refl s,
      find-put_plugin plugin ps s,
    )
  ]

  -- The plugin that a file becomes, if it can be read and compiled.
  unfoldable pub compiled : List ℕ → List ℕ → Result (List ℕ) → Option (PluginInfo rhai)
  compiled path name (err e) = none
  compiled path name (ok text) = elim (compile (strip_bom text)) [
    | none ↦ none
    | some ast ↦ some (record { name = name; path = path; ast = ast })
  ]

  -- A file that cannot be read or compiled changes nothing in the host. One that is compiled changes
  -- the plugins alone, not the active script or what the scripts share: its name keeps its place
  -- among the plugins or comes last, it is found under its name with the new path and script, and
  -- every other plugin is found as it was. The names, distinct before, stay distinct.
  pub load_plugin_file_lem :
      (host : ScriptHost rhai) (path name s : List ℕ) (content : Result (List ℕ))
      → is_distinct (names host.plugins) ≡ true
      → ((load_plugin_file rhai host path name content).1
          ≡ (elim (compiled path name content) as (λ _. ScriptHost rhai) [
            | none ↦ host
            | some plugin ↦ record host {
              plugins = (load_plugin_file rhai host path name content).1.plugins;
            }
          ]))
        × (names (load_plugin_file rhai host path name content).1.plugins
            ≡ (elim (compiled path name content) as (λ _. List (List ℕ)) [
              | none ↦ names host.plugins
              | some plugin ↦ add_name name (names host.plugins)
            ]))
        × (find s (load_plugin_file rhai host path name content).1.plugins
            ≡ (elim (compiled path name content) as (λ _. Option (PluginInfo rhai)) [
              | none ↦ find s host.plugins
              | some plugin ↦ if list_eq name s then some plugin else find s host.plugins
            ]))
        × (is_distinct (names (load_plugin_file rhai host path name content).1.plugins) ≡ true)
  unfolding load_plugin_file compiled
  load_plugin_file_lem host path name s (err e) h = (refl, refl, refl, h)
  load_plugin_file_lem host path name s (ok text) h =
      elim (Option-cases (compile (strip_bom text))) [
        | inl e ↦ (ground arith, ground arith, ground arith, ground arith)
        | inr (ast, e) ↦
            let plugin : PluginInfo rhai = record { name = name; path = path; ast = ast } in
            (
              ground arith,
              ground (arith, names-put_plugin plugin host.plugins),
              ground (arith, find-put_plugin plugin host.plugins s),
              ground (arith, put_plugin-is_distinct plugin host.plugins),
            )
      ]

  any_defines-provider :
      (f : List ℕ) (ps : List (PluginInfo rhai)) (active : Ast)
      → defines (provider rhai f ps active) f ≡ (any_defines rhai f ps || defines active f)
  unfolding provider any_defines
  any_defines-provider f [] active = refl
  any_defines-provider f (p ∷ ps) active = ground (arith, any_defines-provider f ps active)

  -- `has_function` holds exactly when the script that `call_fn` picks defines the function.
  pub has_function-eq-defines-provider :
      (host : ScriptHost rhai) (f : List ℕ)
      → has_function rhai host f ≡ defines (provider rhai f host.plugins host.ast) f
  unfolding has_function
  has_function-eq-defines-provider host f =
      ground (arith, any_defines-provider f host.plugins host.ast)

  -- Loading a plugin or a script either succeeds or leaves the host as it was, the active script
  -- included.
  pub load_err :
      (host : ScriptHost rhai) (path name : List ℕ) (content : Result (List ℕ)) (e : ProxyError)
      → (load_plugin_file rhai host path name content).0 ≡ err e
      → (reload rhai host content).0 ≡ err e
      → ((load_plugin_file rhai host path name content).1 ≡ host)
        × ((reload rhai host content).1 ≡ host)
  unfolding load_plugin_file reload load_script
  load_err host path name (err x) e p r = (refl, refl)
  load_err host path name (ok text) e p r = elim (Option-cases (compile (strip_bom text))) [
    | inl c ↦ (ground arith, ground arith)
    | inr (ast, c) ↦ absurd (ground arith)
  ]
