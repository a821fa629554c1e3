-- ===== src/Status/Examples.antt =====
-- A server list ping, with its two packets.
use native.Mathlib.Decide.{ℕ_discrete, dec_lt}
use frame_mc.Prelude.{lt_wf}
use frame_mc.Wire.{put_block, take_bytes}
use frame_mc.Varint.{read_varint, read_loop, decode_varint, encode_varint, write_loop, varint_size}
use frame_mc.Codec.{
  read_packet, read_packet_with_compression, read_body, open_body, split_id, write_packet,
  write_packet_with_compression, encode_packet_with_compression,
}
use frame_mc.Stream.{receive, send}
use frame_mc.Status.{serve_request, to_json, serve_ping, answer_ping, status_response}
use frame_mc.Error.{ok}
use frame_mc.Prelude.{◌≡◌, refl}
use frame_mc.Prelude.{[], ◌∷◌, false, none, some}
use frame_mc.Wire.{ascii}
use frame_mc.Config.{ProxyConfig}
use frame_mc.Stream.{Stream}
use frame_mc.Status.{Json, handle_status_with_version}
use frame_mc.Status.Answers.{Served, handle_status_lem}
use frame_mc.Samples.{stored}

abbrev json : Json
json response = some (ascii "{}")

abbrev config : ProxyConfig
config = record {
  bind_address = ascii "0.0.0.0";
  bind_port = 25565;
  motd = ascii "hello";
  max_players = 20;
  online_mode = false;
  favicon = none;
  session_server_url = none;
  servers = [];
  default_server = ascii "lobby";
  script_path = ascii "scripts";
  plugins_dir = ascii "plugins";
}

abbrev client : Stream
client = record { incoming = 1 ∷ 0 ∷ 9 ∷ 1 ∷ 1 ∷ 2 ∷ 3 ∷ 4 ∷ 5 ∷ 6 ∷ 7 ∷ 8 ∷ []; written = [] }

handle_status_lem_example :
    Served stored json config 767 client
      (handle_status_with_version stored json config 767 false false client).1
      (handle_status_with_version stored json config 767 false false client).0
handle_status_lem_example = handle_status_lem stored json config 767 false false client

abbrev served : Stream
served = record {
  incoming = [];
  written = 4 ∷ 0 ∷ 2 ∷ 123 ∷ 125 ∷ 9 ∷ 1 ∷ 1 ∷ 2 ∷ 3 ∷ 4 ∷ 5 ∷ 6 ∷ 7 ∷ 8 ∷ [];
}

ping_echoed : handle_status_with_version stored json config 767 false false client ≡ (ok tt, served)
unfolding handle_status_with_version serve_request to_json serve_ping answer_ping status_response
    receive send read_packet read_packet_with_compression read_body open_body split_id write_packet
    write_packet_with_compression encode_packet_with_compression read_varint read_loop decode_varint
    encode_varint write_loop varint_size put_block take_bytes lt_wf dec_lt ℕ_discrete
ping_echoed = refl
