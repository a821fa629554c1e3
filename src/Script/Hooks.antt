-- ===== src/Script/Hooks.antt =====
-- src/script/events.rs: the three hooks, over the plugins in their order and then the active script.
use frame_mc.Prelude.{ℕ, List, [], ◌∷◌, ◌++◌, Bool, true, false, not, ◌||◌, Option, none, some}
use frame_mc.Prelude.{list_eq, if◌then◌else◌}
use frame_mc.Wire.{ascii}
use frame_mc.Script.{Dynamic, Array, Map, Shared, Rhai, string, array, object, nil, item}
use frame_mc.Script.Events.{
  PlayerJoinEvent, JoinResult, default_join, PlayerCommandEvent, CommandResult, default_command,
  PlayerTabCompleteEvent, join_map, command_map, tab_complete_map, to_join_result,
  to_command_result,
}

-- `s.is_empty()`
abbrev pub is_empty {ℓ} : {A : Type ℓ} → List A → Bool
is_empty [] = true
is_empty (x ∷ xs) = false

-- `results.contains(&s)`
abbrev pub contains : List (List ℕ) → List ℕ → Bool
contains [] s = false
contains (x ∷ xs) s = list_eq x s || contains xs s

-- `call_fn::<rhai::Map>` and `call_fn::<rhai::Array>` fail at a result of another type.
abbrev pub as_object : Option Dynamic → Option Map
as_object (some (object m)) = some m
as_object _ = none

abbrev pub as_array : Option Dynamic → Option Array
as_array (some (array a)) = some a
as_array _ = none

unfoldable pub set_store : Shared → Map → Shared
set_store shared store = record shared { kv_store = store }

unfoldable pub is_handled : CommandResult → Bool
is_handled res = res.cancel || not (is_empty res.reroute_server)

unfoldable pub retarget : JoinResult → JoinResult → JoinResult
retarget final res =
    if is_empty res.target_server then final else record final { target_server = res.target_server }

-- `if let Ok(s) = item.into_string() { if !results.contains(&s) { results.push(s) } }`
unfoldable pub push_new : List (List ℕ) → List ℕ → List (List ℕ)
push_new results s = if contains results s then results else results ++ (s ∷ [])

unfoldable pub push_items : List (List ℕ) → Array → List (List ℕ)
push_items results nil = results
push_items results (item (string s) items) = push_items (push_new results s) items
push_items results (item _ items) = push_items results items

module _ (rhai : Rhai) where
  open rhai use {Ast, defines, call}

  -- One script's answer: none where it does not define the hook or the call fails.
  unfoldable pub answer : List ℕ → Map → Ast → Shared → Option Dynamic × Shared
  answer hook event ast shared =
      let (result, store) = call ast hook event shared in
      if defines ast hook then (result, set_store shared store) else (none, shared)

  unfoldable pub join_loop : PlayerJoinEvent → List Ast → JoinResult → Shared → JoinResult × Shared
  join_loop event [] final shared = (final, shared)
  join_loop event (ast ∷ scripts) final shared =
      let (result, after) = answer (ascii "on_player_join") (join_map event) ast shared in
      elim (as_object result) [
        | none ↦ join_loop event scripts final after
        | some map ↦ elim ((to_join_result map).allow) [
          | false ↦ (to_join_result map, after)
          | true ↦ join_loop event scripts (retarget final (to_join_result map)) after
        ]
      ]

  unfoldable pub eval_join : List Ast → Ast → PlayerJoinEvent → Shared → JoinResult × Shared
  eval_join plugins active event shared =
      join_loop event (plugins ++ (active ∷ [])) default_join shared

  unfoldable pub command_loop : PlayerCommandEvent → List Ast → Shared → CommandResult × Shared
  command_loop event [] shared = (default_command, shared)
  command_loop event (ast ∷ scripts) shared =
      let (result, after) = answer (ascii "on_player_command") (command_map event) ast shared in
      elim (as_object result) [
        | none ↦ command_loop event scripts after
        | some map ↦ elim (is_handled (to_command_result map)) [
          | true ↦ (to_command_result map, after)
          | false ↦ command_loop event scripts after
        ]
      ]

  unfoldable pub eval_command :
      List Ast → Ast → PlayerCommandEvent → Shared → CommandResult × Shared
  eval_command plugins active event shared = command_loop event (plugins ++ (active ∷ [])) shared

  unfoldable pub tab_loop :
      PlayerTabCompleteEvent → List Ast → List (List ℕ) → Shared → List (List ℕ) × Shared
  tab_loop event [] results shared = (results, shared)
  tab_loop event (ast ∷ scripts) results shared =
      let (result, after) = answer (ascii "on_tab_complete") (tab_complete_map event) ast shared in
      elim (as_array result) [
        | none ↦ tab_loop event scripts results after
        | some arr ↦ tab_loop event scripts (push_items results arr) after
      ]

  unfoldable pub eval_tab_complete :
      List Ast → Ast → PlayerTabCompleteEvent → Shared → List (List ℕ) × Shared
  eval_tab_complete plugins active event shared =
      tab_loop event (plugins ++ (active ∷ [])) [] shared
