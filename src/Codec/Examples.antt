-- ===== src/Codec/Examples.antt =====
-- Runs of the packet codec.
use frame_mc.Prelude.{ℕ, ◌≡◌, refl, arith, List, [], ◌∷◌, ◌++◌, length, none, some, ◌<◌, lt_wf}
use frame_mc.Error.{ok, err, io, invalid_data, packet_too_large}
use frame_mc.Varint.{encode_varint, read_loop, read_varint, decode_varint, write_loop, varint_size}
use frame_mc.Wire.{take_bytes}
use frame_mc.Packet.{RawPacket, new}
use frame_mc.Codec.{
  open_body, open_compressed, split_id, read_body, read_packet_with_compression,
  encode_packet_with_compression,
}
use frame_mc.Codec.RoundTrip.{Admits, read_packet-encode_packet}
use frame_mc.Codec.Limits.{read_packet_bounds}
use frame_mc.Samples.{stored, IsZlib-stored}
use native.Mathlib.Decide.{ℕ_discrete, dec_lt}

abbrev packet : RawPacket
packet = new 0x10 (1 ∷ 2 ∷ 3 ∷ [])

abbrev bytes : List ℕ
bytes = 5 ∷ 4 ∷ 0x10 ∷ 1 ∷ 2 ∷ 3 ∷ []

abbrev behind : List ℕ
behind = 8 ∷ []

encode_at_threshold : encode_packet_with_compression stored packet (some 4) ≡ ok bytes
unfolding encode_packet_with_compression varint_size encode_varint write_loop lt_wf ℕ_discrete
encode_at_threshold = refl

packet-Admits : Admits 4096 packet bytes
unfolding varint_size
packet-Admits = record {
  id = omega arith;
  max_short = omega arith;
  packet_fits = omega arith;
  frame_fits = omega arith;
}

read_packet-encode_packet_example :
    read_packet_with_compression stored 4096 (some 4) (bytes ++ behind) ≡ ok (packet, behind)
read_packet-encode_packet_example =
    read_packet-encode_packet stored 4096 packet (some 4) bytes behind IsZlib-stored packet-Admits
      encode_at_threshold

read_bytes :
    read_packet_with_compression stored 4096 (some 4) (bytes ++ behind) ≡ ok (packet, behind)
unfolding read_packet_with_compression read_varint decode_varint read_loop read_body take_bytes
    dec_lt lt_wf open_body open_compressed split_id
read_bytes = refl

read_too_large :
    read_packet_with_compression stored 4 none (bytes ++ behind) ≡ err (packet_too_large 5)
unfolding read_packet_with_compression read_varint read_loop
read_too_large = refl

-- A packet whose stated size is below the threshold must not have been compressed.
read_badly_compressed :
    read_packet_with_compression stored 4096 (some 5) (bytes ++ behind) ≡ err (io invalid_data)
unfolding read_packet_with_compression read_varint decode_varint read_loop read_body take_bytes
    dec_lt lt_wf open_body open_compressed split_id
read_badly_compressed = refl

read_packet_bounds_example :
    (length packet.payload < 4096) × (length behind < length (bytes ++ behind))
read_packet_bounds_example =
    read_packet_bounds stored 4096 (some 4) (bytes ++ behind) behind packet read_bytes
