-- ===== src/Machine/Switch/Laws.antt =====
-- A transfer happens whole or not at all.
use frame_mc.Prelude.{ℕ, ◌≡◌, ◌≢◌, refl, arith, List, Bool, true, false, Option, none, some}
use frame_mc.Prelude.{Option-cases, inl, inr, ◌⊎◌, ap, ◌∙◌, sym}
use frame_mc.Error.{Result, ProxyError, Result-cases, ok, err}
use frame_mc.Stream.{Stream}
use frame_mc.Config
use frame_mc.Config.{BackendConfig}
use frame_mc.Configuration.Cache.{SessionRegistryCache}
use frame_mc.Machine.{World, Chance, PlayStateMachine, chat}
use frame_mc.Machine.Method.{◌>>◌, pure}
use frame_mc.Machine.Configure.{Outcome, configured, refused, unfinished, negotiate}
use frame_mc.Machine.Configure.Laws.{negotiate_ends}
use frame_mc.Machine.Switch.{refuse, conclude, transfer, switch_server, not_found_message}
use frame_mc.Machine.Switch.Told.{told, arrived, chat-told, refuse_lem, refused_lem, complete_lem}

Outcome-cases :
    (o : Outcome)
    → ((s : Stream) × (c : SessionRegistryCache) × (o ≡ configured s c))
      ⊎ (((r : List ℕ) × (c : SessionRegistryCache) × (o ≡ refused r c))
          ⊎ ((c : SessionRegistryCache) × (o ≡ unfinished c)))
Outcome-cases (configured s c) = inl (s, c, refl)
Outcome-cases (refused r c) = inr (inl (r, c, refl))
Outcome-cases (unfinished c) = inr (inr (c, refl))

-- What the environment answered in a transfer that was completed.
pub record Arrival (w : World) (chance : Chance) (target : List ℕ) (m : PlayStateMachine w)
    : Type 0 where
  pub backend : BackendConfig
  pub new_backend : Stream
  pub threshold : Option ℕ
  pub stream : Stream
  pub cache : SessionRegistryCache
  pub known : Config.get m.config.servers target ≡ some backend
  pub connected :
      chance.connect target backend m.session.profile m.session.client_ip m.session.protocol_version
      ≡ ok (new_backend, threshold)
  pub negotiated :
      negotiate w m.session.protocol_version threshold chance new_backend m.session.registry_cache
      ≡ configured stream cache

-- A transfer that was not completed: its result, and what the player was told.
pub record Stay (w : World) (m : PlayStateMachine w) (r : Result Bool × PlayStateMachine w)
    : Type 0 where
  pub result : Result Bool
  pub written : List ℕ
  pub cache : SessionRegistryCache
  pub same : r ≡ (result, told w m written cache)
  pub not_true : result ≢ ok true

module _ (w : World) (chance : Chance) (target : List ℕ) (m : PlayStateMachine w) where
  transfer_refused :
      (backend : BackendConfig) (x : ProxyError)
      → chance.connect target backend m.session.profile m.session.client_ip
          m.session.protocol_version
        ≡ err x
      → transfer w chance target backend m ≡ refuse w target (w.display x) m
  unfolding transfer
  transfer_refused backend x e = rw (e, transfer) refl

  transfer_connected :
      (backend : BackendConfig) (new_backend : Stream) (threshold : Option ℕ)
      → chance.connect target backend m.session.profile m.session.client_ip
          m.session.protocol_version
        ≡ ok (new_backend, threshold)
      → transfer w chance target backend m
        ≡ conclude w target threshold
            (negotiate w m.session.protocol_version threshold chance new_backend
              m.session.registry_cache)
            m
  unfolding transfer
  transfer_connected backend new_backend threshold e = rw (e, transfer) refl

  transfer_cases :
      (backend : BackendConfig)
      → Config.get m.config.servers target ≡ some backend
      → Stay w m (transfer w chance target backend m)
        ⊎ ((a : Arrival w chance target m) × (transfer w chance target backend m
              ≡ (ok true, arrived w target a.stream a.threshold a.cache m)))
  transfer_cases backend known =
      elim (Result-cases (
        chance.connect target backend m.session.profile m.session.client_ip
          m.session.protocol_version)) [
            | inr (x, e) ↦ inl (record {
              result = ok false;
              written = _;
              cache = m.session.registry_cache;
              same = transfer_refused backend x e ∙ refuse_lem w target (w.display x) m;
              not_true = λ h. cc;
            })
            | inl ((new_backend, threshold), e) ↦
                let open_transfer = transfer_connected backend new_backend threshold e in
                let outcome =
                  negotiate w m.session.protocol_version threshold chance new_backend
                    m.session.registry_cache in
                elim (Outcome-cases outcome) [
                  | inl (stream, cache, n) ↦ inr (
                    record {
                      backend = backend;
                      new_backend = new_backend;
                      threshold = threshold;
                      stream = stream;
                      cache = cache;
                      known = known;
                      connected = e;
                      negotiated = n;
                    },
                    rw n at open_transfer ∙ complete_lem w target stream threshold cache m,
                  )
                  | inr (inl (reason, cache, n)) ↦
                      let told_so = refused_lem w target reason threshold cache m in
                      inl (record {
                        result = ok false;
                        written = told_so.0;
                        cache = cache;
                        same = rw n at open_transfer ∙ told_so.1;
                        not_true = λ h. cc;
                      })
                  | inr (inr (cache, n)) ↦ absurd (
                      negotiate_ends w m.session.protocol_version threshold chance new_backend
                        m.session.registry_cache cache n)
                ]
          ]

  switch_unknown :
      Config.get m.config.servers target ≡ none
      → switch_server w chance target m ≡ (do chat w (not_found_message target); pure false) m
  unfolding switch_server
  switch_unknown e = rw (e, switch_server) refl

  switch_known :
      (backend : BackendConfig)
      → Config.get m.config.servers target ≡ some backend
      → switch_server w chance target m ≡ transfer w chance target backend m
  unfolding switch_server
  switch_known backend e = rw (e, switch_server) refl

  not_found_lem : Stay w m ((do chat w (not_found_message target); pure false) m)
  not_found_lem =
      let message = not_found_message target in
      let after = (chat w message m).1 in
      elim (Result-cases (chat w message m).0) [
        | inl (u, e) ↦ record {
          result = ok false;
          written = after.client.written;
          cache = m.session.registry_cache;
          same = ground (arith, chat-told w message m);
          not_true = λ h. cc;
        }
        | inr (x, e) ↦ record {
          result = err x;
          written = after.client.written;
          cache = m.session.registry_cache;
          same = ground (arith, chat-told w message m);
          not_true = λ h. cc;
        }
      ]

  -- A call of `switch_server` either returns true after a whole transfer, or returns something else
  -- and has changed nothing but the bytes written to the client and the registries of the session.
  pub switch_server-cases :
      Stay w m (switch_server w chance target m)
      ⊎ ((a : Arrival w chance target m) × (switch_server w chance target m
            ≡ (ok true, arrived w target a.stream a.threshold a.cache m)))
  switch_server-cases = elim (Option-cases (Config.get m.config.servers target)) [
    | inl e ↦ inl (rw (switch_unknown e) not_found_lem)
    | inr (backend, e) ↦ rw (switch_known backend e) (transfer_cases backend e)
  ]

  -- A transfer that returns true has connected to a server of the settings and configured it, and
  -- leaves the player on it: the old backend is shut, the client has got the packets that reset what
  -- the old server left, nothing is tracked any more, and the next Login (Play) is awaited.
  pub switch_server_arrives :
      (switch_server w chance target m).0 ≡ ok true
      → (a : Arrival w chance target m) × ((switch_server w chance target m).1
          ≡ arrived w target a.stream a.threshold a.cache m)
  switch_server_arrives h = elim switch_server-cases [
    | inl s ↦
        absurd (s.not_true (sym (ap (λ (r : Result Bool × PlayStateMachine w). r.0) s.same) ∙ h))
    | inr (a, e) ↦ (a, ap (λ (r : Result Bool × PlayStateMachine w). r.1) e)
  ]

  -- A transfer that does not return true, because the server is unknown, cannot be reached or
  -- configured, or by an error, leaves the backend, the thresholds, the server's name and all that is
  -- tracked as they were; only the client was told, and registries may have come in.
  pub switch_server_stays :
      (switch_server w chance target m).0 ≢ ok true
      → (switch_server w chance target m).1
        ≡ told w m
            (switch_server w chance target m).1.client.written
            (switch_server w chance target m).1.session.registry_cache
  unfolding told
  switch_server_stays h = elim switch_server-cases [
    | inl s ↦ rw s.same refl
    | inr (a, e) ↦ absurd (h (ap (λ (r : Result Bool × PlayStateMachine w). r.0) e))
  ]
