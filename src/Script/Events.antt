-- ===== src/Script/Events.antt =====
-- src/script/events.rs: the events and the results of the hooks, and their form in a script.
use frame_mc.Prelude.{ℕ, ◌+◌, ◌-◌, ◌^◌, List, [], Bool, true, false, Option, some}
use frame_mc.Prelude.{is_negative, if◌then◌else◌}
use frame_mc.Wire.{ascii}
use frame_mc.Script.{Dynamic, Map, boolean, integer, string, end, entry, get}

pub record PlayerJoinEvent : Type 0 where
  pub player_name : List ℕ
  pub uuid : List ℕ
  pub ip : List ℕ
  pub protocol_version : ℕ

pub record JoinResult : Type 0 where
  pub allow : Bool
  pub disconnect_reason : List ℕ
  pub target_server : List ℕ

abbrev pub default_join : JoinResult
default_join = record { allow = true; disconnect_reason = []; target_server = [] }

pub record PlayerCommandEvent : Type 0 where
  pub player_name : List ℕ
  pub command : List ℕ
  pub current_server : List ℕ

-- `PlayerCommandEvent::new`
abbrev pub command_event : List ℕ → List ℕ → PlayerCommandEvent
command_event player_name command = record {
  player_name = player_name;
  command = command;
  current_server = ascii "lobby";
}

pub record CommandResult : Type 0 where
  pub cancel : Bool
  pub reroute_server : List ℕ
  pub send_message : List ℕ

abbrev pub default_command : CommandResult
default_command = record { cancel = false; reroute_server = []; send_message = [] }

pub record PlayerTabCompleteEvent : Type 0 where
  pub player_name : List ℕ
  pub command : List ℕ
  pub current_server : List ℕ

-- `value as i64` of an `i32`: the sign is extended.
unfoldable pub as_i64 : ℕ → ℕ
as_i64 v = if is_negative v then v + (2 ^ 64 - 2 ^ 32) else v

unfoldable pub tab_complete_map : PlayerTabCompleteEvent → Map
tab_complete_map event = entry (ascii "player_name") (string event.player_name) (
    entry (ascii "command") (string event.command)
      (entry (ascii "current_server") (string event.current_server) end))

unfoldable pub join_map : PlayerJoinEvent → Map
join_map event = entry (ascii "player_name") (string event.player_name) (
    entry (ascii "uuid") (string event.uuid) (
      entry (ascii "ip") (string event.ip)
        (entry (ascii "protocol_version") (integer (as_i64 event.protocol_version)) end)))

unfoldable pub command_map : PlayerCommandEvent → Map
command_map event = entry (ascii "player_name") (string event.player_name) (
    entry (ascii "command") (string event.command)
      (entry (ascii "current_server") (string event.current_server) end))

-- `.and_then(|v| v.as_bool().ok()).unwrap_or(other)`
unfoldable pub bool_or : Bool → Option Dynamic → Bool
bool_or default (some (boolean b)) = b
bool_or default _ = default

-- `.map(|v| v.clone().into_string().unwrap_or_default()).unwrap_or_default()`
unfoldable pub text_or_empty : Option Dynamic → List ℕ
text_or_empty (some (string s)) = s
text_or_empty _ = []

unfoldable pub to_join_result : Map → JoinResult
to_join_result map = record {
  allow = bool_or true (get map (ascii "allow"));
  disconnect_reason = text_or_empty (get map (ascii "disconnect_reason"));
  target_server = text_or_empty (get map (ascii "target_server"));
}

unfoldable pub to_command_result : Map → CommandResult
to_command_result map = record {
  cancel = bool_or false (get map (ascii "cancel"));
  reroute_server = text_or_empty (get map (ascii "reroute_server"));
  send_message = text_or_empty (get map (ascii "send_message"));
}
