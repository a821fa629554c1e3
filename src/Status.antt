-- ===== src/Status.antt =====
-- src/protocol/status.rs: the answers to a server list ping.
pub mod Answers
mod Examples
use frame_mc.Prelude.{
  ℕ, List, [], ◌∷◌, ◌++◌, Bool, true, false, not, Option, none, some, ◌==◌, length, ltb,
  if◌then◌else◌,
}
use frame_mc.Error.{
  Result, ProxyError, ok, err, io, unexpected_eof, timed_out, invalid_packet_id, config_error,
}
use frame_mc.Wire.{put_block, ascii}
use frame_mc.Packet.{RawPacket, new}
use frame_mc.Codec.{Zlib}
use frame_mc.Config.{ProxyConfig}
use frame_mc.Stream.{Stream, Action, ◌>>=◌, ◌>>◌, pure, raise, lift, within, receive, send}

pub record VersionInfo : Type 0 where
  pub name : List ℕ
  pub protocol : ℕ

pub record PlayerSample : Type 0 where
  pub name : List ℕ
  pub id : List ℕ

pub record PlayersInfo : Type 0 where
  pub max : ℕ
  pub online : ℕ
  pub sample : List PlayerSample

pub record ChatDescription : Type 0 where
  pub text : List ℕ

pub record StatusResponse : Type 0 where
  pub version : VersionInfo
  pub players : PlayersInfo
  pub description : ChatDescription
  pub favicon : Option (List ℕ)
  pub enforces_secure_chat : Bool

-- What serde_json makes of a response, if it can.
abbrev pub Json : Type 0
Json = StatusResponse → Option (List ℕ)

unfoldable pub status_response : ProxyConfig → ℕ → StatusResponse
status_response config protocol_version = record {
  version = record { name = ascii "FrameMC"; protocol = protocol_version };
  players = record { max = config.max_players; online = 0; sample = [] };
  description = record { text = config.motd };
  favicon = config.favicon;
  enforces_secure_chat = false;
}

unfoldable pub to_json : Json → StatusResponse → Result (List ℕ)
to_json json response = elim (json response) [ some text ↦ ok text | none ↦ err config_error ]

module _ (z : Zlib) (json : Json) where
  -- The packet of the response, for its JSON text.
  abbrev pub response_packet : List ℕ → RawPacket
  response_packet text = new 0x00 (put_block text)

  -- Part 4: a ping gets its payload back.
  unfoldable pub answer_ping : RawPacket → Action (Unit {0})
  answer_ping ping_packet =
      if not (ping_packet.id == 0x01)
      then raise (invalid_packet_id ping_packet.id)
      else if ltb (length ping_packet.payload) 8
      then raise (io unexpected_eof)
      else send z (new 0x01 ping_packet.payload)

  -- Part 3, on a stream; a client that leaves, or says nothing until the time limit, is served.
  unfoldable pub serve_ping : Bool → Action (Unit {0})
  serve_ping true s = (ok tt, s)
  serve_ping false s = elim (receive z s).0 [
    | ok ping_packet ↦ answer_ping ping_packet (receive z s).1
    | err (io unexpected_eof) ↦ (ok tt, (receive z s).1)
    | err e ↦ (err e, (receive z s).1)
  ]

  unfoldable pub serve_request : ProxyConfig → ℕ → RawPacket → Action (Unit {0})
  serve_request config protocol_version request_packet =
      if request_packet.id == 0x00
      then (do
        text ← lift (to_json json (status_response config protocol_version))
        send z (response_packet text))
      else raise (invalid_packet_id request_packet.id)

  -- The two Booleans say whether the time limits of the two reads passed.
  unfoldable pub handle_status_with_version : ProxyConfig → ℕ → Bool → Bool → Action (Unit {0})
  handle_status_with_version config protocol_version late_request late_ping = do
    request_packet ← within late_request (io timed_out) (receive z)
    serve_request config protocol_version request_packet
    serve_ping late_ping

  unfoldable pub handle_status : ProxyConfig → Bool → Bool → Action (Unit {0})
  handle_status config late_request late_ping =
      handle_status_with_version config 765 late_request late_ping
