-- ===== src/Machine/Invariant/Handlers.antt =====
-- The handlers of a backend's packets keep a session in its loop.
use frame_mc.Prelude.{ℕ, refl, List, Bool, true, false}
use frame_mc.Prelude.{if◌then◌else◌}
use frame_mc.Error.{Result, ok, err}
use frame_mc.Packet.{RawPacket, is_protected_plugin_channel}
use frame_mc.Play.Respawn.FromLogin.{is_login_play_packet}
use frame_mc.Play.DeclareCommands.{is_declare_commands_packet}
use frame_mc.Machine.{World, Chance, PlayStateMachine, Play, send_client, chat}
use frame_mc.Machine.Method.{◌>>=◌, ◌>>◌, pure}
use frame_mc.Machine.Tracking.{track}
use frame_mc.Machine.Backend.{
  on_default_server, fall_back, handle_disconnect, handle_login, route_backend, is_disconnect,
  handle_backend_packet, handle_backend_eof, respawn_packet, declared_packet,
}
use frame_mc.Machine.Invariant.{
  unchanged, Keeps, Keeps-refl, Keeps-trans, send_client-Keeps, chat-Keeps, switch_server-Keeps,
  track-Keeps,
}

module _ {w : World} where
  -- A step and what follows it.
  pub then-Keeps :
      {A B : Type 0} (f : Play w A) (k : A → Play w B) (s : PlayStateMachine w)
      → Keeps s (f s).1
      → ((a : A) → Keeps (f s).1 (k a (f s).1).1)
      → Keeps s ((f >>= k) s).1
  then-Keeps {A} {B} f k s h j =
      elim (f s).0
        as (λ (r : Result A).
          Keeps s
            (let x : Result B × PlayStateMachine w = elim r [
              | ok a ↦ k a (f s).1
              | err e ↦ (err e, (f s).1)
            ] in
              x).1) [ ok a ↦ Keeps-trans h (j a) | err e ↦ h ]

  -- Both branches of a test.
  pub if_Keeps :
      {A : Type 0} (b : Bool) (s : PlayStateMachine w) (x y : A × PlayStateMachine w)
      → Keeps s x.1
      → Keeps s y.1
      → Keeps s (if b then x else y).1
  if_Keeps true s x y h k = h
  if_Keeps false s x y h k = k

module _ (w : World) where
  pub send_and_go_on :
      (packet : RawPacket) (m : PlayStateMachine w)
      → Keeps m ((do send_client w packet; pure true) m).1
  send_and_go_on packet m =
      then-Keeps (send_client w packet) (λ u. pure true) m (send_client-Keeps w packet m)
        (λ u. Keeps-refl _)

  fall_back-Keeps :
      (chance : Chance) (notice : List ℕ → List ℕ) (m : PlayStateMachine w)
      → Keeps m (fall_back w chance notice m).1
  unfolding fall_back
  fall_back-Keeps chance notice m =
      let message = notice m.session.current_server in
      Keeps-trans (chat-Keeps w message m) (
        switch_server-Keeps w chance (chat w message m).1.config.default_server
          (chat w message m).1)

  handle_login-Keeps :
      (packet : RawPacket) (m : PlayStateMachine w) → Keeps m (handle_login w packet m).1
  unfolding handle_login
  handle_login-Keeps packet m =
      let m' : PlayStateMachine w = record m { server_transferred = false } in
      let marked : Keeps m m' = unchanged m _ refl refl refl refl (λ p. record {
        backend = p.backend;
        known = p.known;
        threshold = p.threshold;
        boss_bars = p.boss_bars;
        objectives = p.objectives;
        slots = p.slots;
      }) in
      if_Keeps m.server_transferred m _ _
        (Keeps-trans marked (send_and_go_on (respawn_packet packet m.session.protocol_version) m'))
        (send_and_go_on packet m)

  route_backend-Keeps :
      (chance : Chance) (packet : RawPacket) (m : PlayStateMachine w)
      → Keeps m (route_backend w chance packet m).1
  unfolding route_backend handle_disconnect
  route_backend-Keeps chance packet m =
      let v = m.session.protocol_version in
      if_Keeps (is_disconnect packet) m _ _
        (if_Keeps (on_default_server w m) m _ _ (Keeps-refl m) (fall_back-Keeps chance _ m))
        (if_Keeps (is_login_play_packet packet.id v) m _ _ (handle_login-Keeps packet m) (
          if_Keeps (is_declare_commands_packet packet.id v) m _ _
            (send_and_go_on (declared_packet w packet m) m) (send_and_go_on packet m)))

  pub handle_backend_packet-Keeps :
      (chance : Chance) (packet : RawPacket) (m : PlayStateMachine w)
      → Keeps m (handle_backend_packet w chance packet m).1
  unfolding handle_backend_packet
  handle_backend_packet-Keeps chance packet m =
      if_Keeps (is_protected_plugin_channel packet) m _ _ (Keeps-refl m) (
        Keeps-trans (track-Keeps w packet m) (route_backend-Keeps chance packet (track w packet m)))

  pub handle_backend_eof-Keeps :
      (chance : Chance) (m : PlayStateMachine w) → Keeps m (handle_backend_eof w chance m).1
  unfolding handle_backend_eof
  handle_backend_eof-Keeps chance m =
      if_Keeps (on_default_server w m) m _ _ (Keeps-refl m) (fall_back-Keeps chance _ m)
