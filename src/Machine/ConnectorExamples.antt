-- ===== src/Machine/ConnectorExamples.antt =====
-- The laws of the connector at concrete inputs.
use frame_mc.Prelude.{
  ℕ, ◌≡◌, ◌≢◌, refl, arith, List, [], ◌∷◌, Bool, true, false, Option, none, some,
}
use frame_mc.Prelude.{◌<◌, ◌++◌, length}
use frame_mc.Error.{ok}
use frame_mc.Samples.{stored, IsZlib-stored}
use frame_mc.Machine.Sets.{bytes_key, nat_key}
use frame_mc.Varint.{varint_size}
use frame_mc.Packet.{RawPacket}
use frame_mc.Codec.{
  default_max_packet_size, encode_packet_with_compression, write_packet_with_compression,
}
use frame_mc.Codec.SetCompression
use frame_mc.Codec.RoundTrip.{Admits}
use frame_mc.Login.Acknowledged
use frame_mc.Login.Acknowledged.{login_acknowledged}
use frame_mc.Stream.{Stream, receive}
use frame_mc.Machine.{PlayStateMachine, with_thresholds}
use frame_mc.Prelude.{◌+◌, ◌++◌}
use frame_mc.Codec.{encode_packet_with_compression}
use frame_mc.Prelude.{if◌then◌else◌}
use frame_mc.Codec.{read_packet_with_compression}
use frame_mc.Packet.{RawPacket}
use frame_mc.Machine.Connector.{finish_login, read_login}
use frame_mc.Machine.Connector.Laws.{finish_login_compressed, finish_login_accepted}

abbrev compression : RawPacket
compression = SetCompression.encode (record { threshold = 256 })

abbrev success : RawPacket
success = record { id = 2; payload = 7 ∷ [] }

abbrev accepting : Stream
accepting = record { incoming = 3 ∷ 3 ∷ 128 ∷ 2 ∷ 3 ∷ 0 ∷ 2 ∷ 7 ∷ 9 ∷ []; written = [] }

set_written : encode_packet_with_compression stored compression none ≡ ok (3 ∷ 3 ∷ 128 ∷ 2 ∷ [])
unfolding encode_packet_with_compression SetCompression.encode frame_mc.Varint.encode_varint
    varint_size
set_written = refl

compression-Admits : Admits default_max_packet_size compression (3 ∷ 3 ∷ 128 ∷ 2 ∷ [])
unfolding varint_size SetCompression.encode frame_mc.Varint.encode_varint
compression-Admits = record {
  id = omega arith;
  max_short = omega arith;
  packet_fits = omega arith;
  frame_fits = omega arith;
}

success_written : encode_packet_with_compression stored success (some 256) ≡ ok (3 ∷ 0 ∷ 2 ∷ 7 ∷ [])
unfolding encode_packet_with_compression varint_size frame_mc.Varint.encode_varint
success_written = refl

success-Admits : Admits default_max_packet_size success (3 ∷ 0 ∷ 2 ∷ 7 ∷ [])
unfolding varint_size
success-Admits = record {
  id = omega arith;
  max_short = omega arith;
  packet_fits = omega arith;
  frame_fits = omega arith;
}

acknowledged :
    write_packet_with_compression stored [] (Acknowledged.encode login_acknowledged) (some 256)
    ≡ ok (2 ∷ 0 ∷ 3 ∷ [])
unfolding write_packet_with_compression Acknowledged.encode encode_packet_with_compression
    varint_size frame_mc.Varint.encode_varint
acknowledged = refl

finish_login_compressed_example :
    finish_login stored 765 accepting
    ≡ (ok (some 256), record { incoming = 9 ∷ []; written = 2 ∷ 0 ∷ 3 ∷ [] })
finish_login_compressed_example =
    finish_login_compressed stored 765 256 success (3 ∷ 3 ∷ 128 ∷ 2 ∷ []) (3 ∷ 0 ∷ 2 ∷ 7 ∷ [])
      (9 ∷ []) (2 ∷ 0 ∷ 3 ∷ []) accepting IsZlib-stored (omega arith) refl refl set_written
      compression-Admits success_written success-Admits refl acknowledged

-- The same login without a threshold, from a backend of version 763.
abbrev bare : Stream
bare = record { incoming = 2 ∷ 2 ∷ 7 ∷ 9 ∷ []; written = [] }

abbrev bare_rest : Stream
bare_rest = record { incoming = 9 ∷ []; written = [] }

bare_first : receive stored bare ≡ (ok success, bare_rest)
unfolding receive frame_mc.Codec.read_packet frame_mc.Codec.read_packet_with_compression
    frame_mc.Varint.read_varint frame_mc.Varint.read_loop frame_mc.Codec.read_body
    frame_mc.Prelude.lt_wf frame_mc.Codec.open_body frame_mc.Codec.split_id
    frame_mc.Varint.decode_varint
bare_first = refl

bare_accepted : (finish_login stored 763 bare).0 ≡ ok none
unfolding finish_login read_login receive frame_mc.Codec.read_packet
    frame_mc.Codec.read_packet_with_compression frame_mc.Varint.read_varint
    frame_mc.Varint.read_loop frame_mc.Codec.read_body frame_mc.Prelude.lt_wf
    frame_mc.Codec.open_body frame_mc.Codec.split_id frame_mc.Varint.decode_varint
    frame_mc.Machine.Connector.check_login frame_mc.Machine.Connector.acknowledge
bare_accepted = refl

finish_login_accepted_example :
    (login : RawPacket) × ((read_login stored success bare_rest).0 ≡ ok (none, login))
    × (login.id ≡ 0x02)
finish_login_accepted_example =
    finish_login_accepted stored 763 bare bare_rest success none bare_accepted bare_first
