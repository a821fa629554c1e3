-- ===== src/Machine/Invariant/ClientHandlers.antt =====
-- The handlers of the client's packets keep a session in its loop.
use frame_mc.Prelude.{ℕ, refl, List, Bool, true, false, not, Option, none, some}
use frame_mc.Prelude.{if◌then◌else◌}
use frame_mc.Error.{Result, ok, err}
use frame_mc.Stream.{Stream}
use frame_mc.Codec.{write_packet_with_compression}
use frame_mc.Packet.{RawPacket, is_protected_plugin_channel}
use frame_mc.Script.Hooks.{is_empty}
use frame_mc.Script.Events.{CommandResult}
use frame_mc.Play.Ids.{is_serverbound_close_container_packet}
use frame_mc.Play.ChatCommand.{ServerboundChatCommand}
use frame_mc.Play.TabCompleteRequest.{TabCompleteRequestPacket}
use frame_mc.Machine.{World, Chance, PlayStateMachine}
use frame_mc.Machine.Method.{pure}
use frame_mc.Machine.Switch.{switch_server}
use frame_mc.Machine.Client.{
  send_to, send_backend, on_request, route_command, on_command, forward, answer_request,
  suggestions_for, handle_request, command_answer, tell, obey, handle_command, close_on_request,
  handle_client_packet,
}
use frame_mc.Machine.Invariant.{
  unchanged, Keeps, Keeps-refl, Keeps-trans, chat-Keeps, switch_server-Keeps,
}
use frame_mc.Machine.Invariant.Handlers.{then-Keeps, if_Keeps, send_and_go_on}

module _ (w : World) where
  send_to-Keeps :
      (packet : RawPacket) (o : Option Stream) (m : PlayStateMachine w)
      → Keeps m (send_to w packet o m).1
  unfolding send_to
  send_to-Keeps packet none m = Keeps-refl m
  send_to-Keeps packet (some b) m =
      elim (write_packet_with_compression w.zlib b.written packet m.backend_compression_threshold)
        as (λ (r : Result (List ℕ)).
          Keeps m
            (let x : Result (Unit {0}) × PlayStateMachine w = elim r [
              | err e ↦ (err e, m)
              | ok bytes ↦
                  let backend : Stream = record b { written = bytes } in
                  (ok tt, record m { backend = some backend })
            ] in
              x).1) [
                | err e ↦ Keeps-refl m
                | ok bytes ↦ unchanged m _ refl refl refl refl (λ p. record {
                  backend = λ e. cc;
                  known = p.known;
                  threshold = p.threshold;
                  boss_bars = p.boss_bars;
                  objectives = p.objectives;
                  slots = p.slots;
                })
              ]

  forward-Keeps : (packet : RawPacket) (m : PlayStateMachine w) → Keeps m (forward w packet m).1
  unfolding forward send_backend
  forward-Keeps packet m =
      then-Keeps (send_backend w packet) (λ u. pure true) m (send_to-Keeps packet m.backend m)
        (λ u. Keeps-refl _)

  suggestions_for-Keeps :
      (req : TabCompleteRequestPacket) (m : PlayStateMachine w)
      → Keeps m (suggestions_for w req m).1
  unfolding suggestions_for
  suggestions_for-Keeps req m = unchanged m _ refl refl refl refl (λ p. record {
    backend = p.backend;
    known = p.known;
    threshold = p.threshold;
    boss_bars = p.boss_bars;
    objectives = p.objectives;
    slots = p.slots;
  })

  on_request-Keeps :
      (packet : RawPacket) (o : Option TabCompleteRequestPacket) (m : PlayStateMachine w)
      → Keeps m (on_request w packet o m).1
  unfolding on_request answer_request
  on_request-Keeps packet none m = forward-Keeps packet m
  on_request-Keeps packet (some req) m =
      let s = suggestions_for w req m in
      if_Keeps (is_empty s.0) m _ _
        (Keeps-trans (suggestions_for-Keeps req m) (forward-Keeps packet s.1))
        (Keeps-trans (suggestions_for-Keeps req m) (send_and_go_on w _ s.1))

  handle_request-Keeps :
      (packet : RawPacket) (m : PlayStateMachine w) → Keeps m (handle_request w packet m).1
  unfolding handle_request
  handle_request-Keeps packet m = on_request-Keeps packet _ m

  tell-Keeps : (message : List ℕ) (m : PlayStateMachine w) → Keeps m (tell w message m).1
  unfolding tell
  tell-Keeps message m = if_Keeps (is_empty message) m _ _ (Keeps-refl m) (chat-Keeps w message m)

  route_command-Keeps :
      (chance : Chance) (packet : RawPacket) (res : CommandResult) (t : PlayStateMachine w)
      → Keeps t (route_command w chance packet res t).1
  unfolding route_command
  route_command-Keeps chance packet res t =
      if_Keeps (not (is_empty res.reroute_server)) t _ _
        (then-Keeps (switch_server w chance res.reroute_server) (λ b. pure true) t
          (switch_server-Keeps w chance res.reroute_server t) (λ b. Keeps-refl _))
        (if_Keeps res.cancel t _ _ (Keeps-refl t) (handle_request-Keeps packet t))

  on_command-Keeps :
      (chance : Chance) (packet : RawPacket) (o : Option ServerboundChatCommand)
      (m : PlayStateMachine w)
      → Keeps m (on_command w chance packet o m).1
  unfolding on_command obey command_answer
  on_command-Keeps chance packet none m = handle_request-Keeps packet m
  on_command-Keeps chance packet (some cmd) m =
      let a = command_answer w cmd m in
      let asked : Keeps m a.1 = unchanged m _ refl refl refl refl (λ p. record {
        backend = p.backend;
        known = p.known;
        threshold = p.threshold;
        boss_bars = p.boss_bars;
        objectives = p.objectives;
        slots = p.slots;
      }) in
      Keeps-trans asked (
        then-Keeps (tell w a.0.send_message) (λ u. route_command w chance packet a.0) a.1
          (tell-Keeps a.0.send_message a.1) (λ u. route_command-Keeps chance packet a.0 _))

  pub handle_client_packet-Keeps :
      (chance : Chance) (packet : RawPacket) (m : PlayStateMachine w)
      → Keeps m (handle_client_packet w chance packet m).1
  unfolding handle_client_packet handle_command close_on_request
  handle_client_packet-Keeps chance packet m =
      let closes = is_serverbound_close_container_packet packet.id m.session.protocol_version in
      let closed : PlayStateMachine w = record m { open_container_id = none } in
      let marked : Keeps m closed = unchanged m _ refl refl refl refl (λ p. record {
        backend = p.backend;
        known = p.known;
        threshold = p.threshold;
        boss_bars = p.boss_bars;
        objectives = p.objectives;
        slots = p.slots;
      }) in
      let after = close_on_request w packet m in
      let first : Keeps m after = elim closes as (λ (b : Bool). Keeps m (if b then closed else m)) [
        | true ↦ marked
        | false ↦ Keeps-refl m
      ] in
      if_Keeps (is_protected_plugin_channel packet) m _ _ (Keeps-refl m)
        (Keeps-trans first (on_command-Keeps chance packet _ after))
