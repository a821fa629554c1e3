-- ===== src/Machine/SessionExamples.antt =====
-- The laws of a whole session, of what it tracks and of its connector, at concrete inputs.
use frame_mc.Prelude.{
  ℕ, ◌≡◌, ◌≢◌, refl, arith, List, [], ◌∷◌, Bool, true, false, Option, none, some,
}
use frame_mc.Prelude.{◌<◌, ◌++◌, length}
use frame_mc.Error.{ok}
use frame_mc.Wire.{ascii}
use frame_mc.Samples.{stored, player, IsZlib-stored, backend_of, uuid}
use frame_mc.Machine.Sets.{contains, bytes_key, nat_key}
use frame_mc.Varint.{varint_size}
use frame_mc.Config.{no_forwarding}
use frame_mc.Packet.{RawPacket, is_protected_plugin_channel}
use frame_mc.Codec.{
  default_max_packet_size, encode_packet_with_compression, write_packet_with_compression,
}
use frame_mc.Codec.RoundTrip.{Admits}
use frame_mc.Stream.{Stream}
use frame_mc.Config
use frame_mc.Machine.{PlayStateMachine, with_thresholds}
use frame_mc.Machine.Run.{Event, from_client, from_backend, shutdown, run, round, next}
use frame_mc.Prelude.{◌++◌}
use frame_mc.Codec.{encode_packet_with_compression}
use frame_mc.Machine.Run.Relay.{client_packet_relayed}
use frame_mc.Play.ChatCommand.{is_command_packet}
use frame_mc.Play.TabCompleteRequest.{is_tab_complete_request}
use frame_mc.Play.Ids.{is_serverbound_close_container_packet}
use frame_mc.Prelude.{if◌then◌else◌}
use frame_mc.Codec.{read_packet_with_compression}
use frame_mc.Packet.{RawPacket, is_protected_plugin_channel}
use frame_mc.Machine.Run.Laws.{run_ends, run_shutdown, client_events}
use frame_mc.Machine.Teardown.{teardown_transferred_state, objective_packet}
use frame_mc.Machine.Teardown.Laws.{teardown_lem, cleaned, reset_packets, deliver}
use frame_mc.Machine.Tracking.History.{
  track_all-replay, track_all, replay, boss_bar_after, objective_after, slot_after,
}
use frame_mc.Machine.Invariant.{IsPlaying}
use frame_mc.Machine.Invariant.Reach.{begin, go, by_event, reachable_IsPlaying}
use frame_mc.Machine.Samples.{
  sample_world, reachable, machine_on, settings, backend_stream, player_stream, session_on, host_of,
}

abbrev on_hub : PlayStateMachine sample_world
on_hub = machine_on (ascii "hub") none false

abbrev reads : List Event
reads =
    from_client reachable
    ∷ from_backend reachable
    ∷ from_client reachable
    ∷ from_client reachable
    ∷ from_client reachable
    ∷ from_client reachable
    ∷ []

enough : length player_stream.incoming < client_events reads
unfolding client_events
enough = omega arith

run_ends_example : (run sample_world reads on_hub).0 ≢ none
run_ends_example = run_ends sample_world reads on_hub enough

run_shutdown_example :
    ((run sample_world ((from_client reachable ∷ []) ++ (shutdown ∷ reads)) on_hub).0 ≢ none)
    × (run sample_world ((from_client reachable ∷ []) ++ (shutdown ∷ reads)) on_hub
        ≡ run sample_world ((from_client reachable ∷ []) ++ (shutdown ∷ [])) on_hub)
run_shutdown_example = run_shutdown sample_world (from_client reachable ∷ []) reads on_hub

teardown_lem_example : teardown_transferred_state sample_world on_hub ≡ (
  ok tt,
  cleaned sample_world on_hub (deliver stored none [] (reset_packets sample_world on_hub)),
)
teardown_lem_example = teardown_lem sample_world on_hub

-- A KeepAlive of the Configuration state.
abbrev keep_alive : RawPacket
keep_alive = record { id = 4; payload = 8 ∷ [] }

abbrev start : PlayStateMachine sample_world
start =
    with_thresholds sample_world player_stream backend_stream (session_on (ascii "hub")) settings
      (host_of none) none none

abbrev later_client : Stream
later_client = record { incoming = player_stream.incoming; written = 2 ∷ 0x50 ∷ 9 ∷ [] }

abbrev later : PlayStateMachine sample_world
later = record start {
  client = later_client;
  backend = some (record { incoming = []; written = [] });
}

first_round : round sample_world (from_backend reachable) start ≡ next later
unfolding round with_thresholds frame_mc.Machine.Run.on_event frame_mc.Machine.Run.backend_round
    frame_mc.Machine.Run.after_handler frame_mc.Codec.read_packet_with_compression
    frame_mc.Varint.read_varint frame_mc.Varint.read_loop frame_mc.Codec.read_body
    frame_mc.Prelude.lt_wf frame_mc.Codec.open_body frame_mc.Codec.split_id
    frame_mc.Varint.decode_varint is_protected_plugin_channel
    frame_mc.Machine.Backend.handle_backend_packet frame_mc.Machine.Backend.route_backend
    frame_mc.Machine.Backend.is_disconnect frame_mc.Play.Respawn.FromLogin.is_login_play_packet
    frame_mc.Play.DeclareCommands.is_declare_commands_packet frame_mc.Machine.send_client
    frame_mc.Machine.put_client write_packet_with_compression encode_packet_with_compression
    frame_mc.Packet.frame frame_mc.Machine.Tracking.track frame_mc.Machine.Tracking.track_container
    frame_mc.Machine.Tracking.track_audio frame_mc.Machine.Tracking.track_boss_bars
    frame_mc.Machine.Tracking.track_objectives frame_mc.Machine.Tracking.track_slots
    frame_mc.Machine.Tracking.starts_with_zero frame_mc.Play.CloseContainer.packet_id_for_version
    frame_mc.Play.StopSound.packet_id_for_version frame_mc.Play.BossBar.packet_id_for_version
    frame_mc.Play.ScoreboardObjective.packet_id_for_version
    frame_mc.Play.DisplayObjective.packet_id_for_version frame_mc.Play.Ids.is_open_window_packet
    frame_mc.Play.Ids.is_sound_packet frame_mc.Varint.encode_varint varint_size
first_round = refl

hub_known : Config.get settings.servers (ascii "hub") ≡ some (backend_of no_forwarding)
unfolding Config.get
hub_known = refl

known : Config.get settings.servers (ascii "hub") ≢ none
known e = absurd (ground (arith, hub_known))

reachable_IsPlaying_example :
    IsPlaying later
    × (later.session.profile ≡ player)
    × (later.session.protocol_version ≡ 763)
    × (later.config ≡ settings)
    × (later.client_compression_threshold ≡ none)
reachable_IsPlaying_example =
    reachable_IsPlaying sample_world player_stream backend_stream (session_on (ascii "hub"))
      settings (host_of none) none none later known
      (go begin (by_event (from_backend reachable) first_round))

abbrev track_some : List RawPacket
track_some = objective_packet 763 (ascii "kills") ∷ []

track_all-replay_example :
    (contains (track_all sample_world track_some on_hub).active_boss_bars uuid
      ≡ replay (boss_bar_after 763 uuid) track_some false)
    × (contains
          (track_all sample_world track_some on_hub).active_scoreboard_objectives
          (ascii "kills")
        ≡ replay (objective_after 763 (ascii "kills")) track_some true)
    × (contains (track_all sample_world track_some on_hub).active_display_slots 1
        ≡ replay (slot_after 763 1) track_some true)
unfolding contains
track_all-replay_example = track_all-replay sample_world track_some on_hub uuid (ascii "kills") 1

-- A packet of the player, which goes to a backend that has set a threshold of two bytes.
abbrev plain : RawPacket
plain = record { id = 0x10; payload = 1 ∷ 2 ∷ [] }

abbrev thresholds : PlayStateMachine sample_world
thresholds = record on_hub { backend_compression_threshold = some 2 }

plain_free : is_protected_plugin_channel plain ≡ false
unfolding is_protected_plugin_channel frame_mc.Varint.decode_varint frame_mc.Varint.read_loop
    frame_mc.Wire.Utf8.is_utf8
plain_free = refl

plain_no_command : is_command_packet 0x10 763 ≡ false
unfolding is_command_packet
plain_no_command = refl

plain_no_request : is_tab_complete_request 0x10 763 ≡ false
unfolding is_tab_complete_request
plain_no_request = refl

plain_sent : encode_packet_with_compression stored plain none ≡ ok (3 ∷ 0x10 ∷ 1 ∷ 2 ∷ [])
unfolding encode_packet_with_compression frame_mc.Varint.encode_varint varint_size
plain_sent = refl

plain_passed : encode_packet_with_compression stored plain (some 2) ≡ ok (4 ∷ 3 ∷ 0x10 ∷ 1 ∷ 2 ∷ [])
unfolding encode_packet_with_compression varint_size frame_mc.Varint.encode_varint
plain_passed = refl

sent-Admits : Admits default_max_packet_size plain (3 ∷ 0x10 ∷ 1 ∷ 2 ∷ [])
unfolding varint_size
sent-Admits = record {
  id = omega arith;
  max_short = omega arith;
  packet_fits = omega arith;
  frame_fits = omega arith;
}

passed-Admits : Admits default_max_packet_size plain (4 ∷ 3 ∷ 0x10 ∷ 1 ∷ 2 ∷ [])
unfolding varint_size
passed-Admits = record {
  id = omega arith;
  max_short = omega arith;
  packet_fits = omega arith;
  frame_fits = omega arith;
}

client_packet_relayed_example :
    (round sample_world (from_client reachable) thresholds
      ≡ next (
          let client : Stream = record player_stream { incoming = [] } in
          let backend : Stream = record backend_stream { written = 4 ∷ 3 ∷ 0x10 ∷ 1 ∷ 2 ∷ [] } in
          record thresholds {
            client = client;
            backend = some backend;
            open_container_id =
                if is_serverbound_close_container_packet 0x10 763 then none else some 3;
          }))
    × (read_packet_with_compression stored default_max_packet_size
          (some 2)
          (4 ∷ 3 ∷ 0x10 ∷ 1 ∷ 2 ∷ 9 ∷ [])
        ≡ ok (plain, 9 ∷ []))
client_packet_relayed_example =
    client_packet_relayed sample_world reachable plain thresholds backend_stream
      (3 ∷ 0x10 ∷ 1 ∷ 2 ∷ []) (4 ∷ 3 ∷ 0x10 ∷ 1 ∷ 2 ∷ []) [] (9 ∷ []) IsZlib-stored plain_free
      plain_no_command plain_no_request refl refl plain_sent sent-Admits plain_passed passed-Admits
