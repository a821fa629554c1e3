-- ===== src/Machine/Examples.antt =====
-- The laws of the session at concrete inputs.
use frame_mc.Prelude.{◌≡◌, ◌≢◌, refl, arith, [], ◌∷◌, true, false, none, some}
use frame_mc.Error.{ok}
use frame_mc.Wire.{ascii}
use frame_mc.Packet.{RawPacket, is_protected_plugin_channel}
use frame_mc.Codec.{write_packet_with_compression}
use frame_mc.Script.{Dynamic, boolean, object, entry, end}
use frame_mc.Play.ChatCommand.{ServerboundChatCommand}
use frame_mc.Machine.{PlayStateMachine, with_thresholds}
use frame_mc.Machine.Switch.{switch_server}
use frame_mc.Machine.Switch.Told.{arrived, told}
use frame_mc.Machine.Switch.Laws.{Arrival, switch_server_arrives, switch_server_stays}
use frame_mc.Machine.Backend.{
  is_disconnect, handle_backend_packet, handle_backend_eof, on_default_server,
}
use frame_mc.Machine.Backend.Recovery.{MovedTo, handle_backend_eof_recovers, disconnect_recovers}
use frame_mc.Machine.Client.{
  intercepted, requested, command_answer, close_on_request, handle_client_packet,
}
use frame_mc.Machine.Client.Laws.{command_handled, StaysOrArrives}
use frame_mc.Script.Hooks.{is_handled}
use frame_mc.Machine.Samples.{sample_world, reachable, unreachable, machine_on}

abbrev on_hub : PlayStateMachine sample_world
on_hub = machine_on (ascii "hub") none false

arrives : (switch_server sample_world reachable (ascii "lobby") on_hub).0 ≡ ok true
unfolding switch_server frame_mc.Config.get frame_mc.Machine.Switch.transfer
    frame_mc.Machine.Switch.conclude frame_mc.Machine.Configure.negotiate
    frame_mc.Machine.Switch.keep_registries frame_mc.Machine.Switch.complete
arrives = refl

switch_server_arrives_example :
    (a : Arrival sample_world reachable (ascii "lobby") on_hub) × ((switch_server sample_world
        reachable
        (ascii "lobby")
        on_hub).1
      ≡ arrived sample_world (ascii "lobby") a.stream a.threshold a.cache on_hub)
switch_server_arrives_example =
    switch_server_arrives sample_world reachable (ascii "lobby") on_hub arrives

stays_false : (switch_server sample_world unreachable (ascii "lobby") on_hub).0 ≡ ok false
unfolding switch_server frame_mc.Config.get frame_mc.Machine.Switch.transfer
    frame_mc.Machine.Switch.refuse
stays_false = refl

stays : (switch_server sample_world unreachable (ascii "lobby") on_hub).0 ≢ ok true
stays e = absurd (ground (arith, stays_false))

switch_server_stays_example :
    (switch_server sample_world unreachable (ascii "lobby") on_hub).1
    ≡ told sample_world on_hub
        (switch_server sample_world unreachable (ascii "lobby") on_hub).1.client.written
        (switch_server sample_world unreachable (ascii "lobby") on_hub).1.session.registry_cache
switch_server_stays_example =
    switch_server_stays sample_world unreachable (ascii "lobby") on_hub stays

eof_true : (handle_backend_eof sample_world reachable on_hub).0 ≡ ok true
unfolding handle_backend_eof on_default_server frame_mc.Machine.Backend.fall_back switch_server
    frame_mc.Config.get frame_mc.Machine.chat frame_mc.Machine.send_client
    write_packet_with_compression frame_mc.Codec.encode_packet_with_compression
    frame_mc.Machine.put_client frame_mc.Machine.Switch.transfer frame_mc.Machine.Switch.conclude
    frame_mc.Machine.Configure.negotiate frame_mc.Machine.Switch.keep_registries
    frame_mc.Machine.Switch.complete
eof_true = refl

handle_backend_eof_recovers_example :
    (on_default_server sample_world on_hub ≡ false)
    × MovedTo (ascii "lobby") (handle_backend_eof sample_world reachable on_hub).1
handle_backend_eof_recovers_example =
    handle_backend_eof_recovers sample_world reachable on_hub eof_true

-- A Disconnect, and a Login (Play) of version 763.
abbrev kick : RawPacket
kick = record { id = 0x1a; payload = 2 ∷ [] }

abbrev login : RawPacket
login = record { id = 0x28; payload = 1 ∷ 2 ∷ [] }

kick_free : is_protected_plugin_channel kick ≡ false
unfolding is_protected_plugin_channel frame_mc.Varint.decode_varint frame_mc.Varint.read_loop
kick_free = refl

kick_gone : is_disconnect kick ≡ true
unfolding is_disconnect
kick_gone = refl

kick_survived : (handle_backend_packet sample_world reachable kick on_hub).0 ≡ ok true
unfolding handle_backend_packet is_protected_plugin_channel frame_mc.Varint.decode_varint
    frame_mc.Varint.read_loop frame_mc.Machine.Backend.route_backend is_disconnect
    frame_mc.Machine.Backend.handle_disconnect on_default_server frame_mc.Machine.Tracking.track
    frame_mc.Machine.Backend.fall_back switch_server frame_mc.Config.get frame_mc.Machine.chat
    frame_mc.Machine.send_client write_packet_with_compression
    frame_mc.Codec.encode_packet_with_compression frame_mc.Machine.put_client
    frame_mc.Machine.Switch.transfer frame_mc.Machine.Switch.conclude
    frame_mc.Machine.Configure.negotiate frame_mc.Machine.Switch.keep_registries
    frame_mc.Machine.Switch.complete
kick_survived = refl

disconnect_recovers_example :
    (on_default_server sample_world on_hub ≡ false)
    × MovedTo (ascii "lobby") (handle_backend_packet sample_world reachable kick on_hub).1
disconnect_recovers_example =
    disconnect_recovers sample_world reachable kick on_hub kick_free kick_gone kick_survived

abbrev moved : PlayStateMachine sample_world
moved = machine_on (ascii "hub") none true

-- A command that a script cancels.
abbrev refusing : PlayStateMachine sample_world
refusing =
    machine_on (ascii "hub") (some (object (entry (ascii "cancel") (boolean true) end))) false

abbrev stop : ServerboundChatCommand
stop = record { command = ascii "stop" }

abbrev stop_packet : RawPacket
stop_packet = record { id = 4; payload = 4 ∷ ascii "stop" }

stop_free : is_protected_plugin_channel stop_packet ≡ false
unfolding is_protected_plugin_channel frame_mc.Varint.decode_varint frame_mc.Varint.read_loop
    frame_mc.Wire.Utf8.is_utf8
stop_free = refl

stop_read : intercepted stop_packet 763 ≡ some stop
unfolding intercepted frame_mc.Play.ChatCommand.is_command_packet
    frame_mc.Play.ChatCommand.decode_with_version frame_mc.Wire.get_string frame_mc.Wire.get_block
    frame_mc.Varint.decode_varint frame_mc.Varint.read_loop frame_mc.Wire.take_bytes
    frame_mc.Wire.from_utf8 frame_mc.Wire.Utf8.is_utf8 frame_mc.Machine.Client.should_intercept
    frame_mc.Machine.Client.is_chat_packet
stop_read = refl

stop_cancelled :
    is_handled
      (command_answer sample_world stop (close_on_request sample_world stop_packet refusing)).0
    ≡ true
unfolding command_answer is_handled frame_mc.Script.Host.host_eval_command
    frame_mc.Script.Hooks.eval_command frame_mc.Script.Hooks.command_loop frame_mc.Script.Host.asts
    close_on_request frame_mc.Play.Ids.is_serverbound_close_container_packet
    frame_mc.Script.Hooks.answer frame_mc.Script.Events.to_command_result
    frame_mc.Script.Events.bool_or frame_mc.Script.get
stop_cancelled = refl

command_handled_example :
    StaysOrArrives sample_world reachable
      (command_answer sample_world stop
        (close_on_request sample_world stop_packet refusing)).0.reroute_server
      refusing
      (handle_client_packet sample_world reachable stop_packet refusing).1
command_handled_example =
    command_handled sample_world reachable stop_packet refusing stop stop_free stop_read
      stop_cancelled
