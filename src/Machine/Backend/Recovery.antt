-- ===== src/Machine/Backend/Recovery.antt =====
-- How the session answers a backend that disconnects the player or is lost.
use frame_mc.Prelude.{ℕ, ◌≡◌, ◌≢◌, refl, arith, List, true, false, none}
use frame_mc.Prelude.{Bool-cases, inl, inr, ap, ◌∙◌}
use frame_mc.Error.{ok, err, backend_connection_failed}
use frame_mc.Packet.{RawPacket, is_protected_plugin_channel}
use frame_mc.Config.{ProxyConfig}
use frame_mc.Machine.{World, Chance, PlayStateMachine, chat}
use frame_mc.Machine.Tracking.{track}
use frame_mc.Machine.Switch.Told.{arrived}
use frame_mc.Machine.Switch.Laws.{switch_server_arrives}
use frame_mc.Machine.Invariant.{chat-Keeps}
use frame_mc.Machine.Backend.{
  is_disconnect, on_default_server, fall_back, handle_disconnect, route_backend,
  handle_backend_packet, handle_backend_eof, disconnected_notice, lost_notice,
}

-- The player is on the server, and its Login (Play) is awaited.
pub record MovedTo {w : World} (server : List ℕ) (m : PlayStateMachine w) : Type 0 where
  pub current_server : m.session.current_server ≡ server
  pub server_transferred : m.server_transferred ≡ true
  pub backend : m.backend ≢ none

module _ (w : World) (chance : Chance) where
  fall_back_moves :
      (notice : List ℕ → List ℕ) (m : PlayStateMachine w)
      → (fall_back w chance notice m).0 ≡ ok true
      → MovedTo m.config.default_server (fall_back w chance notice m).1
  unfolding fall_back arrived
  fall_back_moves notice m e =
      let m' = (chat w (notice m.session.current_server) m).1 in
      let same = (chat-Keeps w (notice m.session.current_server) m).same.config in
      let a = switch_server_arrives w chance m'.config.default_server m' e in
      record {
        current_server =
            ap (λ (s : PlayStateMachine w). s.session.current_server) a.1
            ∙ ap (λ (c : ProxyConfig). c.default_server) same;
        server_transferred = ap (λ (s : PlayStateMachine w). s.server_transferred) a.1;
        backend = λ h. cc (ap (λ (s : PlayStateMachine w). s.backend) a.1);
      }

  eof_open :
      (m : PlayStateMachine w)
      → on_default_server w m ≡ false
      → handle_backend_eof w chance m ≡ fall_back w chance lost_notice m
  unfolding handle_backend_eof
  eof_open m n = rw (n, handle_backend_eof) refl

  disconnect_open :
      (packet : RawPacket) (m : PlayStateMachine w)
      → is_protected_plugin_channel packet ≡ false
      → is_disconnect packet ≡ true
      → on_default_server w m ≡ false
      → handle_backend_packet w chance packet m
        ≡ fall_back w chance disconnected_notice (track w packet m)
  unfolding handle_backend_packet route_backend handle_disconnect on_default_server track
  disconnect_open packet m free gone n = ground arith

  -- The session goes on after a backend that was lost only with the player on the default server,
  -- and only if that was not the one that was lost.
  pub handle_backend_eof_recovers :
      (m : PlayStateMachine w)
      → (handle_backend_eof w chance m).0 ≡ ok true
      → (on_default_server w m ≡ false)
        × MovedTo m.config.default_server (handle_backend_eof w chance m).1
  unfolding handle_backend_eof
  handle_backend_eof_recovers m h = elim (Bool-cases (on_default_server w m)) [
    | inl d ↦ absurd (ground arith)
    | inr n ↦ let eof = eof_open m n in (n, rw eof (fall_back_moves lost_notice m (rw eof at h)))
  ]

  -- A backend's Disconnect is not the end of a session that goes on after it: the player is on the
  -- default server then, and was not on it before. The packet is not on a protected channel.
  pub disconnect_recovers :
      (packet : RawPacket) (m : PlayStateMachine w)
      → is_protected_plugin_channel packet ≡ false
      → is_disconnect packet ≡ true
      → (handle_backend_packet w chance packet m).0 ≡ ok true
      → (on_default_server w m ≡ false)
        × MovedTo m.config.default_server (handle_backend_packet w chance packet m).1
  unfolding handle_backend_packet route_backend handle_disconnect on_default_server track
  disconnect_recovers packet m free gone h = elim (Bool-cases (on_default_server w m)) [
    | inl d ↦ absurd (ground arith)
    | inr n ↦
        let disconnect = disconnect_open packet m free gone n in
        (
          n,
          rw disconnect
              (fall_back_moves disconnected_notice (track w packet m) (rw disconnect at h)),
        )
  ]

  -- On the default server there is nowhere to go: a lost backend ends the loop and a Disconnect is an
  -- error of the session, without a word to the client or a transfer. The packet is not on a
  -- protected channel.
  pub default_server_lost :
      (packet : RawPacket) (m : PlayStateMachine w)
      → is_protected_plugin_channel packet ≡ false
      → is_disconnect packet ≡ true
      → on_default_server w m ≡ true
      → (handle_backend_eof w chance m ≡ (ok false, m))
        × (handle_backend_packet w chance packet m
            ≡ (err backend_connection_failed, track w packet m))
  unfolding handle_backend_eof handle_backend_packet route_backend handle_disconnect
      on_default_server track
  default_server_lost packet m free gone d = (ground arith, ground arith)
