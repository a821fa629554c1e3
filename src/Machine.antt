-- ===== src/Machine.antt =====
-- src/routing/state_machine.rs: `PlayStateMachine`, the session of a player between the client and
-- the backends. A hash set is the list of its members, each once. Writes of the operating system
-- succeed, and flushes do nothing that can be seen; a packet is not written when zlib fails.
pub mod Method
pub mod Sets
pub mod Tracking
pub mod Teardown
pub mod Configure
pub mod Switch
pub mod Backend
pub mod Client
pub mod Run
pub mod Invariant
pub mod Connector
pub mod Samples
mod Examples
mod SessionExamples
mod ConnectorExamples
use frame_mc.Prelude.{ℕ, List, [], ◌∷◌, ◌++◌, Bool, false, Option, none, some, map}
use frame_mc.Error.{Result, ProxyError, ok, err}
use frame_mc.Wire.{ascii}
use frame_mc.Packet.{RawPacket}
use frame_mc.Codec.{Zlib, write_packet_with_compression}
use frame_mc.Stream.{Stream}
use frame_mc.Config.{BackendConfig, ProxyConfig}
use frame_mc.Profile.{PlayerProfile}
use frame_mc.Configuration.Cache.{SessionRegistryCache}
use frame_mc.Play.SystemChat
use frame_mc.Play.SystemChat.{Json, SystemChatMessagePacket}
use frame_mc.Script.{Rhai}
use frame_mc.Script.Host.{ScriptHost}
use Method.{Act, ◌>>=◌, ◌>>◌, pure}

-- What the session needs of crates and of the standard library: zlib, serde_json, rhai, the text of
-- an error, `String::from_utf8_lossy`, `trim` with `to_lowercase`, and the order in which a hash map
-- or a hash set hands out its keys.
pub record World : Type 1 where
  pub zlib : Zlib
  pub json : Json
  pub rhai : Rhai
  pub display : ProxyError → List ℕ
  pub lossy : List ℕ → List ℕ
  pub trim : List ℕ → List ℕ
  pub lower : List ℕ → List ℕ
  pub order : List (List ℕ) → List (List ℕ)
  pub slot_order : List ℕ → List ℕ

-- What the environment does during one call: how a connection to a backend ends, and whether ten
-- seconds pass before a backend has sent the packet with which these bytes begin.
pub record Chance : Type 0 where
  pub connect : List ℕ → BackendConfig → PlayerProfile → List ℕ → ℕ → Result (Stream × Option ℕ)
  pub late : List ℕ → Bool

pub record PlayerSession : Type 0 where
  pub profile : PlayerProfile
  pub client_ip : List ℕ
  pub protocol_version : ℕ
  pub current_server : List ℕ
  pub registry_cache : SessionRegistryCache

-- `§` in UTF-8.
abbrev pub section_sign : List ℕ
section_sign = 0xc2 ∷ 0xa7 ∷ []

module _ (w : World) where
  -- `shut` lists the backends that were shut down; the fields before it are the source's. The
  -- connector stands in `Chance`.
  pub record PlayStateMachine : Type 0 where
    pub client : Stream
    pub backend : Option Stream
    pub session : PlayerSession
    pub config : ProxyConfig
    pub script_host : ScriptHost w.rhai
    pub client_compression_threshold : Option ℕ
    pub backend_compression_threshold : Option ℕ
    pub compression_threshold : Option ℕ
    pub server_transferred : Bool
    pub open_container_id : Option ℕ
    pub has_active_audio : Bool
    pub active_boss_bars : List (List ℕ)
    pub active_scoreboard_objectives : List (List ℕ)
    pub active_display_slots : List ℕ
    pub shut : List Stream

  abbrev pub Play : Type 0 → Type 0
  Play A = Act PlayStateMachine A

  unfoldable pub with_thresholds :
      Stream
      → Stream
      → PlayerSession
      → ProxyConfig
      → ScriptHost w.rhai
      → Option ℕ
      → Option ℕ
      → PlayStateMachine
  with_thresholds client backend session config script_host client_threshold backend_threshold =
      record {
        client = client;
        backend = some backend;
        session = session;
        config = config;
        script_host = script_host;
        client_compression_threshold = client_threshold;
        backend_compression_threshold = backend_threshold;
        compression_threshold = client_threshold;
        server_transferred = false;
        open_container_id = none;
        has_active_audio = false;
        active_boss_bars = [];
        active_scoreboard_objectives = [];
        active_display_slots = [];
        shut = [];
      }

  -- `PlayStateMachine::new`
  unfoldable pub new_machine :
      Stream
      → Stream
      → PlayerSession
      → ProxyConfig
      → ScriptHost w.rhai
      → Option ℕ
      → PlayStateMachine
  new_machine client backend session config script_host threshold =
      with_thresholds client backend session config script_host threshold threshold

  unfoldable pub put_client : List ℕ → PlayStateMachine → PlayStateMachine
  put_client bytes m =
      let client : Stream = record m.client { written = bytes } in record m { client = client }

  -- `write_packet_with_compression(&mut self.client, &packet, self.client_compression_threshold)`
  unfoldable pub send_client : RawPacket → Play (Unit {0})
  send_client packet m =
      elim (write_packet_with_compression w.zlib m.client.written packet
        m.client_compression_threshold) [
          | ok bytes ↦ (ok tt, put_client bytes m)
          | err e ↦ (err e, m)
        ]

  -- `SystemChatMessagePacket::new(msg, false).encode_with_version(version)`
  unfoldable pub chat_packet : List ℕ → PlayStateMachine → RawPacket
  chat_packet message m =
      SystemChat.encode_with_version w.json (record { message = message; overlay = false })
        m.session.protocol_version

  unfoldable pub chat : List ℕ → Play (Unit {0})
  chat message m = send_client (chat_packet message m) m
