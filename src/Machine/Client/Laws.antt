-- ===== src/Machine/Client/Laws.antt =====
-- Which packets of a client reach the backend.
use frame_mc.Prelude.{ℕ, ◌≡◌, refl, arith, List, Bool, true, false, not, Option, none, some}
use frame_mc.Prelude.{Bool-cases, inl, inr, ◌⊎◌, ap, ◌∙◌}
use frame_mc.Error.{Result, Result-cases, ok}
use frame_mc.Stream.{Stream}
use frame_mc.Codec.{write_packet_with_compression}
use frame_mc.Packet.{RawPacket, is_protected_plugin_channel}
use frame_mc.Play.ChatCommand.{ServerboundChatCommand, is_command_packet}
use frame_mc.Play.TabCompleteRequest.{is_tab_complete_request}
use frame_mc.Play.Ids.{is_serverbound_close_container_packet}
use frame_mc.Script.Events.{CommandResult}
use frame_mc.Script.Hooks.{is_handled, is_empty}
use frame_mc.Machine.{World, Chance, PlayStateMachine, PlayerSession, chat}
use frame_mc.Machine.Method.{◌>>=◌, pure}
use frame_mc.Config
use frame_mc.Config.{ProxyConfig}
use frame_mc.Prelude.{◌++◌, sym, if◌then◌else◌}
use frame_mc.Machine.Configure.{negotiate}
use frame_mc.Machine.Switch.{switch_server, members}
use frame_mc.Machine.Switch.Told.{told, arrived, chat-told}
use frame_mc.Machine.Switch.Laws.{Arrival, switch_server-cases}
use frame_mc.Machine.Backend.{handle_backend_packet}
use frame_mc.Machine.Client.{
  send_to, send_backend, forward, intercepted, requested, on_request, handle_request,
  command_answer, tell, route_command, obey, on_command, handle_command, close_on_request,
  handle_client_packet,
}

module _ (w : World) (chance : Chance) where
  -- Packets on the channels that carry a player's identity pass in neither direction and change
  -- nothing.
  pub protected_dropped :
      (packet : RawPacket) (m : PlayStateMachine w)
      → is_protected_plugin_channel packet ≡ true
      → (handle_client_packet w chance packet m ≡ (ok true, m))
        × (handle_backend_packet w chance packet m ≡ (ok true, m))
  unfolding handle_client_packet handle_backend_packet
  protected_dropped packet m h = (ground arith, ground arith)

  -- A packet that is no command for the scripts and no request for completions goes to the backend as
  -- it is, and nothing is written to the client; a close of a container is noted.
  pub forward_untouched :
      (packet : RawPacket) (m : PlayStateMachine w) (b : Stream) (bytes : List ℕ)
      → is_protected_plugin_channel packet ≡ false
      → is_command_packet packet.id m.session.protocol_version ≡ false
      → is_tab_complete_request packet.id m.session.protocol_version ≡ false
      → m.backend ≡ some b
      → write_packet_with_compression w.zlib b.written packet m.backend_compression_threshold
        ≡ ok bytes
      → handle_client_packet w chance packet m ≡ (
        ok true,
        (let backend : Stream = record b { written = bytes } in
            record m {
              backend = some backend;
              open_container_id =
                  if is_serverbound_close_container_packet packet.id m.session.protocol_version
                  then none
                  else m.open_container_id;
            }),
      )
  unfolding handle_client_packet handle_command on_command handle_request on_request forward
      send_backend send_to close_on_request intercepted requested
  forward_untouched packet m b bytes free no_command no_request there written =
      elim (Bool-cases
        (is_serverbound_close_container_packet packet.id m.session.protocol_version)) [
          | inl c ↦ ground arith
          | inr c ↦ ground arith
        ]

  -- A state that differs from another one in nothing that a transfer or the backend sees.
  record Alike (m t : PlayStateMachine w) : Type 0 where
    session : t.session ≡ m.session
    config : t.config ≡ m.config
    backend : t.backend ≡ m.backend
    shut : t.shut ≡ m.shut

  Alike-trans : {m t u : PlayStateMachine w} → Alike m t → Alike t u → Alike m u
  Alike-trans a b = record {
    session = b.session ∙ a.session;
    config = b.config ∙ a.config;
    backend = b.backend ∙ a.backend;
    shut = b.shut ∙ a.shut;
  }

  chat-Alike : (message : List ℕ) (m : PlayStateMachine w) → Alike m (chat w message m).1
  unfolding told
  chat-Alike message m =
      let e = chat-told w message m in
      record {
        session = ap (λ (s : PlayStateMachine w). s.session) e;
        config = ap (λ (s : PlayStateMachine w). s.config) e;
        backend = ap (λ (s : PlayStateMachine w). s.backend) e;
        shut = ap (λ (s : PlayStateMachine w). s.shut) e;
      }

  tell-Alike : (message : List ℕ) (m : PlayStateMachine w) → Alike m (tell w message m).1
  unfolding tell
  tell-Alike message m =
      elim (is_empty message) as (λ b. Alike m (if b then (ok tt, m) else chat w message m).1) [
        | true ↦ record { session = refl; config = refl; backend = refl; shut = refl }
        | false ↦ chat-Alike message m
      ]

  -- What the backends have got of the player after a command: nothing at the same backend, or, after
  -- a transfer to the target, the old backend is shut as it was, and the new one is as it was when
  -- its configuration ended.
  abbrev pub StaysOrArrives : List ℕ → PlayStateMachine w → PlayStateMachine w → Type 0
  StaysOrArrives target m m' =
      ((m'.backend ≡ m.backend) × (m'.shut ≡ m.shut))
      ⊎ ((a : Arrival w chance target m) × (m'.backend ≡ some a.stream)
          × (m'.shut ≡ m.shut ++ members m.backend)
          × (m'.session.current_server ≡ target))

  as_before :
      (target : List ℕ) (m t m' : PlayStateMachine w)
      → Alike m t
      → StaysOrArrives target t m'
      → StaysOrArrives target m m'
  as_before target m t m' k (inl (b, s)) = inl (b ∙ k.backend, s ∙ k.shut)
  as_before target m t m' k (inr (a, b, s, c)) = inr (
    record {
      backend = a.backend;
      new_backend = a.new_backend;
      threshold = a.threshold;
      stream = a.stream;
      cache = a.cache;
      known = ap (λ (c : ProxyConfig). Config.get c.servers target) (sym k.config) ∙ a.known;
      connected =
          ap
            (λ (s : PlayerSession).
              chance.connect target a.backend s.profile s.client_ip s.protocol_version)
            (sym k.session)
          ∙ a.connected;
      negotiated =
          ap
            (λ (s : PlayerSession).
              negotiate w s.protocol_version a.threshold chance a.new_backend s.registry_cache)
            (sym k.session)
          ∙ a.negotiated;
    },
    b,
    s
        ∙ (ap (λ (x : List Stream). x ++ members t.backend) k.shut
            ∙ ap (λ (x : Option Stream). m.shut ++ members x) k.backend),
    c,
  )

  switch_backend :
      (target : List ℕ) (m : PlayStateMachine w)
      → StaysOrArrives target m (switch_server w chance target m).1
  unfolding told arrived
  switch_backend target m = elim (switch_server-cases w chance target m) [
    | inl s ↦ inl (
      ap (λ (r : Result Bool × PlayStateMachine w). r.1.backend) s.same,
      ap (λ (r : Result Bool × PlayStateMachine w). r.1.shut) s.same,
    )
    | inr (a, e) ↦ inr (
      a,
      ap (λ (r : Result Bool × PlayStateMachine w). r.1.backend) e,
      ap (λ (r : Result Bool × PlayStateMachine w). r.1.shut) e,
      ap (λ (r : Result Bool × PlayStateMachine w). r.1.session.current_server) e,
    )
  ]

  rerouted :
      (target : List ℕ) (m : PlayStateMachine w)
      → ((do _ ← switch_server w chance target; pure true) m).1
        ≡ (switch_server w chance target m).1
  rerouted target m = elim (Result-cases (switch_server w chance target m).0) [
    | inl (b, e) ↦ ground arith
    | inr (x, e) ↦ ground arith
  ]

  route_handled :
      (packet : RawPacket) (res : CommandResult) (m : PlayStateMachine w)
      → is_handled res ≡ true
      → StaysOrArrives res.reroute_server m (route_command w chance packet res m).1
  unfolding route_command is_handled
  route_handled packet res m h = elim (Bool-cases (not (is_empty res.reroute_server))) [
    | inl r ↦
        rw (r, route_command)
          (rw (rerouted res.reroute_server m) (switch_backend res.reroute_server m))
    | inr r ↦
        let same : (route_command w chance packet res m).1 ≡ m = ground arith in
        inl (
          ap (λ (x : PlayStateMachine w). x.backend) same,
          ap (λ (x : PlayStateMachine w). x.shut) same,
        )
  ]

  obey_handled :
      (packet : RawPacket) (res : CommandResult) (m : PlayStateMachine w)
      → is_handled res ≡ true
      → StaysOrArrives res.reroute_server m (obey w chance packet res m).1
  unfolding obey
  obey_handled packet res m h =
      let t = (tell w res.send_message m).1 in
      let alike = tell-Alike res.send_message m in
      elim (Result-cases (tell w res.send_message m).0) [
        | inr (x, e) ↦
            let opened : (obey w chance packet res m).1 ≡ t = ground arith in
            inl (
              ap (λ (x : PlayStateMachine w). x.backend) opened ∙ alike.backend,
              ap (λ (x : PlayStateMachine w). x.shut) opened ∙ alike.shut,
            )
        | inl (u, e) ↦
            let opened : obey w chance packet res m ≡ route_command w chance packet res t =
              ground arith in
            rw opened (
              as_before res.reroute_server m t (route_command w chance packet res t).1 alike
                (route_handled packet res t h))
      ]

  close-Alike :
      (packet : RawPacket) (m : PlayStateMachine w) → Alike m (close_on_request w packet m)
  unfolding close_on_request
  close-Alike packet m =
      elim (Bool-cases
        (is_serverbound_close_container_packet packet.id m.session.protocol_version)) [
          | inl c ↦ record {
            session = ground arith;
            config = ground arith;
            backend = ground arith;
            shut = ground arith;
          }
          | inr c ↦ record {
            session = ground arith;
            config = ground arith;
            backend = ground arith;
            shut = ground arith;
          }
        ]

  -- The command's answer is looked up with the container already closed.
  asked :
      (packet : RawPacket) (m : PlayStateMachine w) (cmd : ServerboundChatCommand)
      → intercepted packet m.session.protocol_version ≡ some cmd
      → handle_command w chance packet m
        ≡ obey w chance packet (command_answer w cmd m).0 (command_answer w cmd m).1
  unfolding handle_command on_command
  asked packet m cmd e = rw (e, handle_command) refl

  answer-Alike :
      (cmd : ServerboundChatCommand) (m : PlayStateMachine w) → Alike m (command_answer w cmd m).1
  unfolding command_answer
  answer-Alike cmd m = record { session = refl; config = refl; backend = refl; shut = refl }

  -- A command that a script cancels, or reroutes, reaches no backend: either the player's backend has
  -- got nothing and is still the player's, or the player is on the server that the script named, the
  -- old backend was shut with nothing more written to it, and the new one holds what the connection
  -- and the configuration wrote to it, and nothing else.
  pub command_handled :
      (packet : RawPacket) (m : PlayStateMachine w) (cmd : ServerboundChatCommand)
      → is_protected_plugin_channel packet ≡ false
      → intercepted packet m.session.protocol_version ≡ some cmd
      → is_handled (command_answer w cmd (close_on_request w packet m)).0 ≡ true
      → StaysOrArrives
          (command_answer w cmd (close_on_request w packet m)).0.reroute_server
          m
          (handle_client_packet w chance packet m).1
  unfolding handle_client_packet
  command_handled packet m cmd free command handled =
      let m' = close_on_request w packet m in
      let a = command_answer w cmd m' in
      let closed = close-Alike packet m in
      let version = ap (λ (s : PlayerSession). s.protocol_version) closed.session in
      let first : handle_client_packet w chance packet m ≡ handle_command w chance packet m' =
        ground arith in
      let opened = first ∙ asked packet m' cmd (rw version command) in
      rw opened (
        as_before a.0.reroute_server m a.1 (obey w chance packet a.0 a.1).1
          (Alike-trans closed (answer-Alike cmd m')) (obey_handled packet a.0 a.1 handled))
