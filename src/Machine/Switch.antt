-- ===== src/Machine/Switch.antt =====
-- src/routing/state_machine.rs: `switch_server`, the transfer of a player to another backend.
pub mod Told
pub mod Laws
use frame_mc.Prelude.{ℕ, List, [], ◌∷◌, ◌++◌, Bool, true, false, Option, none, some}
use frame_mc.Error.{Result, ok, err, io, timed_out}
use frame_mc.Wire.{ascii}
use frame_mc.Stream.{Stream}
use frame_mc.Config
use frame_mc.Config.{BackendConfig}
use frame_mc.Configuration.Cache.{SessionRegistryCache}
use frame_mc.Machine.{World, Chance, PlayStateMachine, PlayerSession, Play, section_sign, chat}
use frame_mc.Machine.Method.{◌>>=◌, ◌>>◌, pure, raise, attempt, update}
use frame_mc.Machine.Teardown.{teardown_transferred_state}
use frame_mc.Machine.Configure.{Outcome, configured, refused, unfinished, negotiate}

-- `format!("§cServer '{}' not found.", target_server)`
unfoldable pub not_found_message : List ℕ → List ℕ
not_found_message target_server =
    section_sign ++ (ascii "cServer '" ++ (target_server ++ ascii "' not found."))

-- `format!("§cCould not connect to {target_server}: {reason}")`
unfoldable pub could_not_connect : List ℕ → List ℕ → List ℕ
could_not_connect target_server reason =
    section_sign ++ (ascii "cCould not connect to " ++ (target_server ++ (ascii ": " ++ reason)))

abbrev pub members : Option Stream → List Stream
members none = []
members (some stream) = stream ∷ []

module _ (w : World) where
  -- The player is told why, and stays; whether the message could be written does not matter.
  unfoldable pub refuse : List ℕ → List ℕ → Play w Bool
  refuse target_server reason = do
    attempt (chat w (could_not_connect target_server reason))
    pure false

  unfoldable pub keep_registries : SessionRegistryCache → Play w (Unit {0})
  keep_registries cache = update (λ (m : PlayStateMachine w).
      let session : PlayerSession = record m.session { registry_cache = cache } in
      record m { session = session })

  -- `if let Some(mut old_backend) = self.backend.take() { old_backend.shutdown() }`
  unfoldable pub shut_backend : PlayStateMachine w → PlayStateMachine w
  shut_backend m = record m { backend = none; shut = m.shut ++ members m.backend }

  unfoldable pub attach : List ℕ → Stream → Option ℕ → PlayStateMachine w → PlayStateMachine w
  attach target_server new_backend threshold m =
      let session : PlayerSession = record m.session { current_server = target_server } in
      record m {
        backend = some new_backend;
        backend_compression_threshold = threshold;
        compression_threshold = m.client_compression_threshold;
        session = session;
        server_transferred = true;
      }

  unfoldable pub complete : List ℕ → Stream → Option ℕ → Play w Bool
  complete target_server new_backend threshold = do
    update (shut_backend)
    attempt (teardown_transferred_state w)
    update (attach target_server new_backend threshold)
    pure true

  -- `unfinished` does not occur.
  unfoldable pub conclude : List ℕ → Option ℕ → Outcome → Play w Bool
  conclude target_server threshold (configured stream cache) = do
    keep_registries cache
    complete target_server stream threshold
  conclude target_server threshold (refused reason cache) = do
    keep_registries cache
    refuse target_server reason
  conclude target_server threshold (unfinished cache) = raise (io timed_out)

  unfoldable pub transfer : Chance → List ℕ → BackendConfig → Play w Bool
  transfer chance target_server backend m =
      elim (chance.connect target_server backend m.session.profile m.session.client_ip
        m.session.protocol_version) [
          | err e ↦ refuse target_server (w.display e) m
          | ok (new_backend, threshold) ↦
              conclude target_server threshold
                (negotiate w m.session.protocol_version threshold chance new_backend
                  m.session.registry_cache)
                m
        ]

  unfoldable pub switch_server : Chance → List ℕ → Play w Bool
  switch_server chance target_server m = elim (Config.get m.config.servers target_server) [
    | none ↦ (do chat w (not_found_message target_server); pure false) m
    | some backend ↦ transfer chance target_server backend m
  ]
