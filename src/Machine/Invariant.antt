-- ===== src/Machine/Invariant.antt =====
-- What every state of a session keeps, and what each handler leaves alone.
pub mod Handlers
pub mod ClientHandlers
pub mod Reach
use frame_mc.Prelude.{
  ℕ, ◌≡◌, ◌≢◌, refl, arith, List, [], Bool, true, false, Option, none, some, ap, ◌∙◌, sym,
}
use frame_mc.Prelude.{inl, inr, Bool-cases, Option-cases, if◌then◌else◌}
use frame_mc.Error.{Result, Result-cases, ok, err}
use frame_mc.Stream.{Stream}
use frame_mc.Config
use frame_mc.Config.{ProxyConfig}
use frame_mc.Packet.{RawPacket}
use frame_mc.Configuration.Cache.{SessionRegistryCache}
use frame_mc.Machine.{World, Chance, PlayStateMachine, PlayerSession, send_client, chat}
use frame_mc.Machine.Sets.{is_set, insert, remove, insert-is_set, remove-is_set, bytes_key, nat_key}
use frame_mc.Machine.Tracking.{
  track, track_boss_bars, track_objectives, track_slots, apply_boss_bar, apply_objective,
  apply_display,
}
use frame_mc.Machine.Switch.{switch_server}
use frame_mc.Machine.Switch.Told.{told, arrived, send_told, chat-told}
use frame_mc.Machine.Switch.Laws.{Arrival, Stay, switch_server-cases}
use frame_mc.Play.BossBar
use frame_mc.Play.ScoreboardObjective
use frame_mc.Play.DisplayObjective

-- What no handler changes.
pub record Same {w : World} (m m' : PlayStateMachine w) : Type 0 where
  pub incoming : m'.client.incoming ≡ m.client.incoming
  pub profile : m'.session.profile ≡ m.session.profile
  pub client_ip : m'.session.client_ip ≡ m.session.client_ip
  pub protocol_version : m'.session.protocol_version ≡ m.session.protocol_version
  pub config : m'.config ≡ m.config
  pub client_threshold : m'.client_compression_threshold ≡ m.client_compression_threshold

-- A session in its loop: it has a backend, its server is one of the settings, the old name of the
-- client's threshold agrees with it, and nothing is tracked twice.
pub record IsPlaying {w : World} (m : PlayStateMachine w) : Type 0 where
  pub backend : m.backend ≢ none
  pub known : Config.get m.config.servers m.session.current_server ≢ none
  pub threshold : m.compression_threshold ≡ m.client_compression_threshold
  pub boss_bars : is_set m.active_boss_bars ≡ true
  pub objectives : is_set m.active_scoreboard_objectives ≡ true
  pub slots : is_set m.active_display_slots ≡ true

pub record Keeps {w : World} (m m' : PlayStateMachine w) : Type 0 where
  pub same : Same m m'
  pub playing : IsPlaying m → IsPlaying m'

pub Keeps-refl : {w : World} (m : PlayStateMachine w) → Keeps m m
Keeps-refl m = record {
  same = record {
    incoming = refl;
    profile = refl;
    client_ip = refl;
    protocol_version = refl;
    config = refl;
    client_threshold = refl;
  };
  playing = λ p. p;
}

-- A change that leaves the client, the session, the settings and the threshold alone.
pub unchanged :
    {w : World} (m m' : PlayStateMachine w)
    → m'.client ≡ m.client
    → m'.session ≡ m.session
    → m'.config ≡ m.config
    → m'.client_compression_threshold ≡ m.client_compression_threshold
    → (IsPlaying m → IsPlaying m')
    → Keeps m m'
unchanged m m' client session config threshold playing = record {
  same = record {
    incoming = ap (λ (c : Stream). c.incoming) client;
    profile = ap (λ (s : PlayerSession). s.profile) session;
    client_ip = ap (λ (s : PlayerSession). s.client_ip) session;
    protocol_version = ap (λ (s : PlayerSession). s.protocol_version) session;
    config = config;
    client_threshold = threshold;
  };
  playing = playing;
}

pub Keeps-trans : {w : World} {a b c : PlayStateMachine w} → Keeps a b → Keeps b c → Keeps a c
Keeps-trans h k = record {
  same = record {
    incoming = k.same.incoming ∙ h.same.incoming;
    profile = k.same.profile ∙ h.same.profile;
    client_ip = k.same.client_ip ∙ h.same.client_ip;
    protocol_version = k.same.protocol_version ∙ h.same.protocol_version;
    config = k.same.config ∙ h.same.config;
    client_threshold = k.same.client_threshold ∙ h.same.client_threshold;
  };
  playing = λ p. k.playing (h.playing p);
}

module _ (w : World) where
  told-Keeps :
      (m : PlayStateMachine w) (bytes : List ℕ) (cache : SessionRegistryCache)
      → Keeps m (told w m bytes cache)
  unfolding told
  told-Keeps m bytes cache = record {
    same = record {
      incoming = refl;
      profile = refl;
      client_ip = refl;
      protocol_version = refl;
      config = refl;
      client_threshold = refl;
    };
    playing = λ p. record {
      backend = p.backend;
      known = p.known;
      threshold = p.threshold;
      boss_bars = p.boss_bars;
      objectives = p.objectives;
      slots = p.slots;
    };
  }

  pub send_client-Keeps :
      (packet : RawPacket) (m : PlayStateMachine w) → Keeps m (send_client w packet m).1
  send_client-Keeps packet m =
      rw (send_told w packet m)
        (told-Keeps m (send_client w packet m).1.client.written m.session.registry_cache)

  pub chat-Keeps : (message : List ℕ) (m : PlayStateMachine w) → Keeps m (chat w message m).1
  chat-Keeps message m =
      rw (chat-told w message m)
        (told-Keeps m (chat w message m).1.client.written m.session.registry_cache)

  arrived-Keeps :
      (chance : Chance) (target : List ℕ) (m : PlayStateMachine w) (a : Arrival w chance target m)
      → Keeps m (arrived w target a.stream a.threshold a.cache m)
  unfolding arrived is_set
  arrived-Keeps chance target m a = record {
    same = record {
      incoming = refl;
      profile = refl;
      client_ip = refl;
      protocol_version = refl;
      config = refl;
      client_threshold = refl;
    };
    playing = λ p. record {
      backend = λ e. cc;
      known = λ e. cc a.known;
      threshold = refl;
      boss_bars = refl;
      objectives = refl;
      slots = refl;
    };
  }

  pub switch_server-Keeps :
      (chance : Chance) (target : List ℕ) (m : PlayStateMachine w)
      → Keeps m (switch_server w chance target m).1
  switch_server-Keeps chance target m = elim (switch_server-cases w chance target m) [
    | inl s ↦ rw s.same (told-Keeps m s.written s.cache)
    | inr (a, e) ↦ rw e (arrived-Keeps chance target m a)
  ]

  track_boss_bars-is_set :
      (v : ℕ) (packet : RawPacket) (bars : List (List ℕ))
      → is_set bars ≡ true
      → is_set (track_boss_bars v packet bars) ≡ true
  unfolding track_boss_bars apply_boss_bar
  track_boss_bars-is_set v packet bars h = elim (Result-cases (BossBar.decode packet v)) [
    | inl (bb, e) ↦ ground (arith, insert-is_set bb.uuid bars, remove-is_set bb.uuid bars)
    | inr (x, e) ↦ ground arith
  ]

  track_objectives-is_set :
      (v : ℕ) (packet : RawPacket) (names : List (List ℕ))
      → is_set names ≡ true
      → is_set (track_objectives v packet names) ≡ true
  unfolding track_objectives apply_objective
  track_objectives-is_set v packet names h =
      elim (Result-cases (ScoreboardObjective.decode packet v)) [
        | inl (obj, e) ↦ ground (arith, insert-is_set obj.name names, remove-is_set obj.name names)
        | inr (x, e) ↦ ground arith
      ]

  track_slots-is_set :
      (v : ℕ) (packet : RawPacket) (slots : List ℕ)
      → is_set slots ≡ true
      → is_set (track_slots v packet slots) ≡ true
  unfolding track_slots apply_display
  track_slots-is_set v packet slots h = elim (Result-cases (DisplayObjective.decode packet v)) [
    | inl (d, e) ↦ ground (arith, insert-is_set d.position slots, remove-is_set d.position slots)
    | inr (x, e) ↦ ground arith
  ]

  pub track-Keeps : (packet : RawPacket) (m : PlayStateMachine w) → Keeps m (track w packet m)
  unfolding track
  track-Keeps packet m =
      let v = m.session.protocol_version in
      record {
        same = record {
          incoming = refl;
          profile = refl;
          client_ip = refl;
          protocol_version = refl;
          config = refl;
          client_threshold = refl;
        };
        playing = λ p. record {
          backend = p.backend;
          known = p.known;
          threshold = p.threshold;
          boss_bars = track_boss_bars-is_set v packet m.active_boss_bars p.boss_bars;
          objectives = track_objectives-is_set v packet m.active_scoreboard_objectives p.objectives;
          slots = track_slots-is_set v packet m.active_display_slots p.slots;
        };
      }
