-- ===== src/Config.antt =====
-- src/config.rs: the settings that the protocol code reads. A map of servers is the list of its
-- entries, each name once. Files, TOML and the favicon's search are not modelled.
use frame_mc.Prelude.{ℕ, List, [], ◌∷◌, Option, none, some, Bool, list_eq, if◌then◌else◌}

pub data ForwardingMode : Type 0 where
  no_forwarding legacy_bungee velocity_modern : ForwardingMode

pub record BackendConfig : Type 0 where
  pub address : List ℕ
  pub port : ℕ
  pub forwarding_mode : ForwardingMode
  pub forwarding_secret : Option (List ℕ)

pub record ProxyConfig : Type 0 where
  pub bind_address : List ℕ
  pub bind_port : ℕ
  pub motd : List ℕ
  pub max_players : ℕ
  pub online_mode : Bool
  pub favicon : Option (List ℕ)
  pub session_server_url : Option (List ℕ)
  pub servers : List (List ℕ × BackendConfig)
  pub default_server : List ℕ
  pub script_path : List ℕ
  pub plugins_dir : List ℕ

-- `servers.get(name)`
unfoldable pub get : List (List ℕ × BackendConfig) → List ℕ → Option BackendConfig
get [] name = none
get ((key, backend) ∷ servers) name = if list_eq key name then some backend else get servers name
