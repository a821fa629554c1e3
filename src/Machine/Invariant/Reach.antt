-- ===== src/Machine/Invariant/Reach.antt =====
-- The states that a session reaches, round by round.
use frame_mc.Prelude.{
  ℕ, ◌≤◌, ◌<◌, ◌≡◌, ◌≢◌, refl, arith, List, Bool, true, false, Option, none, some,
}
use frame_mc.Prelude.{inl, inr, Bool-cases, Option-cases, length, ◌∙◌}
use mathlib.Core.Path.{subst}
use frame_mc.Error.{Result, Result-cases, ok, err}
use frame_mc.Stream.{Stream}
use frame_mc.Packet.{is_protected_plugin_channel}
use frame_mc.Codec.{default_max_packet_size, read_packet_with_compression}
use frame_mc.Codec.Limits.{read_packet_bounds}
use frame_mc.Config
use frame_mc.Config.{ProxyConfig}
use frame_mc.Script.Host.{ScriptHost}
use frame_mc.Machine.{World, Chance, PlayStateMachine, PlayerSession, with_thresholds}
use frame_mc.Machine.Sets.{is_set}
use frame_mc.Machine.Backend.{handle_backend_packet, handle_backend_eof}
use frame_mc.Machine.Client.{handle_client_packet}
use frame_mc.Machine.Run.{
  Event, from_client, from_backend, shutdown, next, after_handler, client_round, backend_round,
  shutdown_round, on_event, round,
}
use frame_mc.Machine.Invariant.{IsPlaying, Keeps, Keeps-refl, Keeps-trans, unchanged}
use frame_mc.Machine.Invariant.Handlers.{handle_backend_packet-Keeps, handle_backend_eof-Keeps}
use frame_mc.Machine.Invariant.ClientHandlers.{handle_client_packet-Keeps}

-- What a round keeps: all but the bytes from the client, which only get fewer.
pub record Goes {w : World} (m m' : PlayStateMachine w) : Type 0 where
  pub profile : m'.session.profile ≡ m.session.profile
  pub protocol_version : m'.session.protocol_version ≡ m.session.protocol_version
  pub config : m'.config ≡ m.config
  pub client_threshold : m'.client_compression_threshold ≡ m.client_compression_threshold
  pub left : length m'.client.incoming ≤ length m.client.incoming
  pub playing : IsPlaying m → IsPlaying m'

module _ (w : World) where
  after_next :
      (r : Result Bool × PlayStateMachine w) (m' : PlayStateMachine w)
      → after_handler w r ≡ next m'
      → r.1 ≡ m'
  unfolding after_handler
  after_next (ok true, m) m' e = cc
  after_next (ok false, m) m' e = cc
  after_next (err x, m) m' e = cc

  Keeps-Goes : (m m' : PlayStateMachine w) → Keeps m m' → Goes m m'
  Keeps-Goes m m' k = record {
    profile = k.same.profile;
    protocol_version = k.same.protocol_version;
    config = k.same.config;
    client_threshold = k.same.client_threshold;
    left = rw k.same.incoming (omega arith);
    playing = k.playing;
  }

  -- A packet of the client that leads to another round has taken at least one of its bytes.
  pub client_round-Goes :
      (chance : Chance) (m m' : PlayStateMachine w)
      → client_round w chance m ≡ next m'
      → Goes m m' × (length m'.client.incoming < length m.client.incoming)
  unfolding client_round
  client_round-Goes chance m m' e =
      elim (Result-cases (
        read_packet_with_compression w.zlib default_max_packet_size m.client_compression_threshold
          m.client.incoming)) [
            | inr (x, r) ↦ absurd (ground arith)
            | inl ((packet, rest), r) ↦
                let client : Stream = record m.client { incoming = rest } in
                let m1 : PlayStateMachine w = record m { client = client } in
                let h : (handle_client_packet w chance packet m1).1 ≡ m' =
                  after_next (handle_client_packet w chance packet m1) m' (ground arith) in
                let k : Keeps m1 m' =
                  subst (λ (x : PlayStateMachine w). Keeps m1 x) h
                    (handle_client_packet-Keeps w chance packet m1) in
                let read =
                  read_packet_bounds w.zlib default_max_packet_size m.client_compression_threshold
                    m.client.incoming rest packet r in
                let fewer : length m'.client.incoming < length m.client.incoming =
                  rw k.same.incoming read.1 in
                (
                  record {
                    profile = k.same.profile;
                    protocol_version = k.same.protocol_version;
                    config = k.same.config;
                    client_threshold = k.same.client_threshold;
                    left = omega arith;
                    playing = λ p. k.playing (record {
                      backend = p.backend;
                      known = p.known;
                      threshold = p.threshold;
                      boss_bars = p.boss_bars;
                      objectives = p.objectives;
                      slots = p.slots;
                    });
                  },
                  fewer,
                )
          ]

  -- The machine after a packet was taken from the backend.
  taken : Stream → List ℕ → PlayStateMachine w → PlayStateMachine w
  taken b rest m =
      let backend : Stream = record b { incoming = rest } in record m { backend = some backend }

  taken-Keeps : (b : Stream) (rest : List ℕ) (m : PlayStateMachine w) → Keeps m (taken b rest m)
  unfolding taken
  taken-Keeps b rest m = unchanged m _ refl refl refl refl (λ p. record {
    backend = λ e. cc;
    known = p.known;
    threshold = p.threshold;
    boss_bars = p.boss_bars;
    objectives = p.objectives;
    slots = p.slots;
  })

  backend_round-Keeps :
      (chance : Chance) (b : Stream) (m m' : PlayStateMachine w)
      → backend_round w chance b m ≡ next m'
      → Keeps m m'
  unfolding backend_round taken
  backend_round-Keeps chance b m m' e =
      elim (Result-cases (
        read_packet_with_compression w.zlib default_max_packet_size m.backend_compression_threshold
          b.incoming)) [
            | inr (x, r) ↦
                let h : (handle_backend_eof w chance m).1 ≡ m' =
                  after_next (handle_backend_eof w chance m) m' (ground arith) in
                subst (λ (x : PlayStateMachine w). Keeps m x) h
                  (handle_backend_eof-Keeps w chance m)
            | inl ((packet, rest), r) ↦ elim (Bool-cases (is_protected_plugin_channel packet)) [
              | inl p ↦
                  let h : taken b rest m ≡ m' = ground arith in
                  subst (λ (x : PlayStateMachine w). Keeps m x) h (taken-Keeps b rest m)
              | inr p ↦
                  let m1 = taken b rest m in
                  let h : (handle_backend_packet w chance packet m1).1 ≡ m' =
                    after_next (handle_backend_packet w chance packet m1) m' (ground arith) in
                  Keeps-trans (taken-Keeps b rest m) (
                    subst (λ (x : PlayStateMachine w). Keeps m1 x) h
                      (handle_backend_packet-Keeps w chance packet m1))
            ]
          ]

  on_event-Goes :
      (event : Event) (b : Stream) (m m' : PlayStateMachine w)
      → on_event w event b m ≡ next m'
      → Goes m m'
  unfolding on_event shutdown_round
  on_event-Goes (from_client chance) b m m' e = (client_round-Goes chance m m' e).0
  on_event-Goes (from_backend chance) b m m' e =
      Keeps-Goes m m' (backend_round-Keeps chance b m m' e)
  on_event-Goes shutdown b m m' e = absurd (cc)

  pub round-Goes :
      (event : Event) (m m' : PlayStateMachine w) → round w event m ≡ next m' → Goes m m'
  unfolding round
  round-Goes event m m' e = elim (Option-cases m.backend) [
    | inl none_left ↦ absurd (ground arith)
    | inr (b, there) ↦ on_event-Goes event b m m' (ground arith)
  ]

-- A round of the loop that does not end it, for any event.
pub data Step (w : World) (m m' : PlayStateMachine w) : Type 0 where
  by_event : (event : Event) → round w event m ≡ next m' → Step w m m'

pub data Reach (w : World) (start : PlayStateMachine w) : PlayStateMachine w → Type 0 where
  begin : Reach w start start
  go : {m m' : PlayStateMachine w} → Reach w start m → Step w m m' → Reach w start m'

Step-Goes : {w : World} {m m' : PlayStateMachine w} → Step w m m' → Goes m m'
Step-Goes {w} {m} {m'} (by_event event e) = round-Goes w event m m' e

Reach-Goes : {w : World} {start m : PlayStateMachine w} → Reach w start m → Goes start m
Reach-Goes {w} {start} begin = Keeps-Goes w start start (Keeps-refl start)
Reach-Goes (go r s) =
    let h = Reach-Goes r in
    let k = Step-Goes s in
    record {
      profile = k.profile ∙ h.profile;
      protocol_version = k.protocol_version ∙ h.protocol_version;
      config = k.config ∙ h.config;
      client_threshold = k.client_threshold ∙ h.client_threshold;
      left = omega (arith, h.left, k.left);
      playing = λ p. k.playing (h.playing p);
    }

-- From a session on a server of the settings, whatever events come in whatever order, in every state
-- that the loop reaches the session has a backend and is on a server of the settings, no boss bar,
-- objective or slot is tracked twice, and the player, the version, the settings and the client's
-- threshold under both its names are those of the start.
pub reachable_IsPlaying :
    (w : World) (client backend : Stream) (session : PlayerSession) (config : ProxyConfig)
    (host : ScriptHost w.rhai) (client_threshold backend_threshold : Option ℕ)
    (m : PlayStateMachine w)
    → Config.get config.servers session.current_server ≢ none
    → Reach w
        (with_thresholds w client backend session config host client_threshold backend_threshold)
        m
    → IsPlaying m
      × (m.session.profile ≡ session.profile)
      × (m.session.protocol_version ≡ session.protocol_version)
      × (m.config ≡ config)
      × (m.client_compression_threshold ≡ client_threshold)
unfolding with_thresholds is_set
reachable_IsPlaying w client backend session config host client_threshold backend_threshold m known
      r =
    let g = Reach-Goes r in
    (
      g.playing (record {
        backend = λ e. cc;
        known = known;
        threshold = refl;
        boss_bars = refl;
        objectives = refl;
        slots = refl;
      }),
      g.profile,
      g.protocol_version,
      g.config,
      g.client_threshold,
    )
