-- ===== src/Machine/Switch/Told.antt =====
-- What a transfer leaves behind: a player who was told, or one who has arrived.
use frame_mc.Prelude.{ℕ, ◌≡◌, arith, List, [], ◌++◌, true, false, Option, none, some}
use frame_mc.Prelude.{inl, inr, ap}
use frame_mc.Error.{Result, Result-cases, ok}
use frame_mc.Stream.{Stream}
use frame_mc.Codec.{write_packet_with_compression}
use frame_mc.Configuration.Cache.{SessionRegistryCache}
use frame_mc.Machine.{
  World, PlayStateMachine, PlayerSession, put_client, send_client, chat_packet, chat,
}
use frame_mc.Packet.{RawPacket}
use frame_mc.Machine.Teardown.Laws.{deliver, reset_packets, cleaned, teardown_lem}
use frame_mc.Machine.Configure.{configured, refused}
use frame_mc.Machine.Switch.{
  refuse, keep_registries, shut_backend, attach, complete, conclude, members, could_not_connect,
}

module _ (w : World) where
  -- The machine with these bytes written to the client and these registries kept.
  unfoldable pub told : PlayStateMachine w → List ℕ → SessionRegistryCache → PlayStateMachine w
  told m written cache =
      let client : Stream = record m.client { written = written } in
      let session : PlayerSession = record m.session { registry_cache = cache } in
      record m { client = client; session = session }

  -- The machine after a transfer.
  unfoldable pub arrived :
      List ℕ → Stream → Option ℕ → SessionRegistryCache → PlayStateMachine w → PlayStateMachine w
  arrived target stream threshold cache m =
      let written =
        deliver w.zlib m.client_compression_threshold m.client.written (reset_packets w m) in
      let client : Stream = record m.client { written = written } in
      let session : PlayerSession = record m.session {
        current_server = target;
        registry_cache = cache;
      } in
      record m {
        client = client;
        backend = some stream;
        session = session;
        backend_compression_threshold = threshold;
        compression_threshold = m.client_compression_threshold;
        server_transferred = true;
        open_container_id = none;
        has_active_audio = false;
        active_boss_bars = [];
        active_scoreboard_objectives = [];
        active_display_slots = [];
        shut = m.shut ++ members m.backend;
      }

  pub complete_lem :
      (target : List ℕ) (stream : Stream) (threshold : Option ℕ) (cache : SessionRegistryCache)
      (m : PlayStateMachine w)
      → conclude w target threshold (configured stream cache) m
        ≡ (ok true, arrived target stream threshold cache m)
  unfolding complete conclude keep_registries attach arrived shut_backend cleaned reset_packets
  complete_lem target stream threshold cache m =
      let kept : PlayerSession = record m.session { registry_cache = cache } in
      let left = shut_backend w (record m { session = kept }) in
      ap
        (λ (r : Result (Unit {0}) × PlayStateMachine w).
          (ok true, attach w target stream threshold r.1))
        (teardown_lem w left)

  pub send_told :
      (p : RawPacket) (m : PlayStateMachine w)
      → (send_client w p m).1 ≡ told m (send_client w p m).1.client.written m.session.registry_cache
  unfolding send_client put_client told
  send_told p m =
      elim (Result-cases
        (write_packet_with_compression w.zlib m.client.written p m.client_compression_threshold)) [
          | inl (bytes, e) ↦ ground arith
          | inr (x, e) ↦ ground arith
        ]

  pub chat-told :
      (message : List ℕ) (m : PlayStateMachine w)
      → (chat w message m).1 ≡ told m (chat w message m).1.client.written m.session.registry_cache
  unfolding chat
  chat-told message m = send_told (chat_packet w message m) m

  -- The player is told of the failure, and nothing else happens.
  pub refuse_lem :
      (target reason : List ℕ) (m : PlayStateMachine w)
      → refuse w target reason m ≡ (
        ok false,
        told m
            (chat w (could_not_connect target reason) m).1.client.written
            m.session.registry_cache,
      )
  unfolding refuse
  refuse_lem target reason m =
      ap (λ (s : PlayStateMachine w). (ok false, s)) (chat-told (could_not_connect target reason) m)

  pub refused_lem :
      (target reason : List ℕ) (threshold : Option ℕ) (cache : SessionRegistryCache)
      (m : PlayStateMachine w)
      → (bytes : List ℕ) × (conclude w target threshold (refused reason cache) m
          ≡ (ok false, told m bytes cache))
  unfolding conclude keep_registries told
  refused_lem target reason threshold cache m =
      let kept : PlayerSession = record m.session { registry_cache = cache } in
      let m' : PlayStateMachine w = record m { session = kept } in
      ((chat w (could_not_connect target reason) m').1.client.written, refuse_lem target reason m')
