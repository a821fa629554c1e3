-- ===== src/Script/Verdicts.antt =====
-- What the scripts decide about a join and about a command, as one verdict on all their answers.
use frame_mc.Prelude.{ℕ, ◌≡◌, arith, refl, List, [], ◌∷◌, ◌++◌, false, Option, none, some}
use frame_mc.Prelude.{map, if◌then◌else◌, Option-cases, inl, inr}
use frame_mc.Wire.{ascii}
use frame_mc.Script.{Map, Shared, Rhai}
use frame_mc.Script.Events.{
  PlayerJoinEvent, JoinResult, default_join, PlayerCommandEvent, CommandResult, default_command,
  join_map, command_map, to_join_result, to_command_result,
}
use frame_mc.Script.Hooks.{
  is_empty, as_object, is_handled, retarget, answer, join_loop, eval_join, command_loop,
  eval_command,
}

-- The first refusal, if any.
pub refusal : List JoinResult → Option JoinResult
refusal [] = none
refusal (r ∷ rs) = if r.allow then refusal rs else some r

-- The last server that an answer names, or the one given.
pub last_target : List ℕ → List JoinResult → List ℕ
last_target server [] = server
last_target server (r ∷ rs) =
    last_target (if is_empty r.target_server then server else r.target_server) rs

-- The first answer that cancels or reroutes, if any.
pub first_handled : List CommandResult → Option CommandResult
first_handled [] = none
first_handled (r ∷ rs) = if is_handled r then some r else first_handled rs

-- The first refusal, or else the answer before the scripts with the last server that one names.
pub verdict : JoinResult → List JoinResult → JoinResult
verdict final rs = elim (refusal rs) [
  | some r ↦ r
  | none ↦ record final { target_server = last_target final.target_server rs }
]

-- The first answer that cancels or reroutes, or else nothing.
pub command_verdict : List CommandResult → CommandResult
command_verdict rs = elim (first_handled rs) [ some r ↦ r | none ↦ default_command ]

module _ (rhai : Rhai) where
  open rhai use {Ast}

  -- The answers of all scripts in order, each with the store that the earlier ones left.
  pub answers : List ℕ → Map → List Ast → Shared → List Map
  answers hook event [] shared = []
  answers hook event (ast ∷ scripts) shared =
      let (result, after) = answer rhai hook event ast shared in
      let rest = answers hook event scripts after in
      elim (as_object result) [ none ↦ rest | some map ↦ map ∷ rest ]

  pub join_answers : PlayerJoinEvent → List Ast → Shared → List JoinResult
  join_answers event scripts shared =
      map to_join_result (answers (ascii "on_player_join") (join_map event) scripts shared)

  pub command_answers : PlayerCommandEvent → List Ast → Shared → List CommandResult
  command_answers event scripts shared =
      map to_command_result (answers (ascii "on_player_command") (command_map event) scripts shared)

  join_loop_lem :
      (event : PlayerJoinEvent) (scripts : List Ast) (final : JoinResult) (shared : Shared)
      → (join_loop rhai event scripts final shared).0
        ≡ verdict final (join_answers event scripts shared)
  unfolding join_loop join_answers answers verdict refusal last_target retarget
  join_loop_lem event [] final shared = refl
  join_loop_lem event (ast ∷ scripts) final shared =
      let res = answer rhai (ascii "on_player_join") (join_map event) ast shared in
      elim (Option-cases (as_object res.0)) [
        | inl e ↦ ground (arith, join_loop_lem event scripts final res.1)
        | inr (m, e) ↦
            ground (arith, join_loop_lem event scripts (retarget final (to_join_result m)) res.1)
      ]

  -- On join, the scripts are asked in the order of the plugins and then the active script, and the
  -- first refusal is the result, as it stands; without a refusal the player is allowed with no
  -- reason, to the last server that an answer names, or to none.
  pub eval_join-eq-verdict :
      (plugins : List Ast) (active : Ast) (event : PlayerJoinEvent) (shared : Shared)
      → (eval_join rhai plugins active event shared).0
        ≡ verdict default_join (join_answers event (plugins ++ (active ∷ [])) shared)
  unfolding eval_join
  eval_join-eq-verdict plugins active event shared =
      join_loop_lem event (plugins ++ (active ∷ [])) default_join shared

  command_loop_lem :
      (event : PlayerCommandEvent) (scripts : List Ast) (shared : Shared)
      → (command_loop rhai event scripts shared).0
        ≡ command_verdict (command_answers event scripts shared)
  unfolding command_loop command_answers answers command_verdict first_handled
  command_loop_lem event [] shared = refl
  command_loop_lem event (ast ∷ scripts) shared =
      let res = answer rhai (ascii "on_player_command") (command_map event) ast shared in
      elim (Option-cases (as_object res.0)) [
        | inl e ↦ ground (arith, command_loop_lem event scripts res.1)
        | inr (m, e) ↦ ground (arith, command_loop_lem event scripts res.1)
      ]

  -- The result for a command is the first answer, in the order of the plugins and then the active
  -- script, that cancels it or names a server, as it stands, and without one it is neither
  -- cancelled, rerouted nor answered: a message alone is not sent.
  pub eval_command-eq-verdict :
      (plugins : List Ast) (active : Ast) (event : PlayerCommandEvent) (shared : Shared)
      → (eval_command rhai plugins active event shared).0
        ≡ command_verdict (command_answers event (plugins ++ (active ∷ [])) shared)
  unfolding eval_command
  eval_command-eq-verdict plugins active event shared =
      command_loop_lem event (plugins ++ (active ∷ [])) shared

  unhandled :
      (rs : List CommandResult)
      → is_handled (command_verdict rs) ≡ false
      → command_verdict rs ≡ default_command
  unfolding command_verdict first_handled
  unhandled [] h = refl
  unhandled (r ∷ rs) h = ground (arith, unhandled rs)

  -- A result that neither cancels the command nor reroutes the player has no message for the player
  -- either, whatever messages the scripts asked for.
  pub eval_command_unhandled :
      (plugins : List Ast) (active : Ast) (event : PlayerCommandEvent) (shared : Shared)
      → is_handled (eval_command rhai plugins active event shared).0 ≡ false
      → (eval_command rhai plugins active event shared).0 ≡ default_command
  eval_command_unhandled plugins active event shared h =
      let e = eval_command-eq-verdict plugins active event shared in rw e (unhandled _ (rw e at h))
