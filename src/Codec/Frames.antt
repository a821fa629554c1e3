-- ===== src/Codec/Frames.antt =====
-- What the packet reader gets out of each shape of a frame.
use frame_mc.Prelude.{ℕ, ◌+◌, ◌<◌, ◌≤◌, ◌≡◌, arith, List, [], ◌++◌, length}
use frame_mc.Prelude.{refl, length-append, lt_wf}
use frame_mc.Prelude.{Option, none, some, as_i32, IsU32, IsShort, take_front, drop_front}
use frame_mc.Prelude.{take_all}
use frame_mc.Error.{Result, ok, err}
use frame_mc.Varint.{decode_varint, read_varint, encode_varint, varint_size}
use frame_mc.Varint.RoundTrip.{decode_varint-encode_varint}
use frame_mc.Varint.Bounds.{varint_size-encode_varint}
use frame_mc.Packet.{RawPacket}
use frame_mc.Codec.{Zlib, IsZlib, split_id, open_compressed, open_body}
use frame_mc.Codec.{read_packet_with_compression}
use frame_mc.Codec.Body.{read_body-eq}

pub read_varint-encode_varint :
    (v : ℕ) (rest : List ℕ) → IsU32 v → read_varint (encode_varint v ++ rest) ≡ ok (v, rest)
unfolding read_varint decode_varint
read_varint-encode_varint v rest h = decode_varint-encode_varint v rest h

abbrev pub with_rest : List ℕ → Result RawPacket → Result (RawPacket × List ℕ)
with_rest rest (ok packet) = ok (packet, rest)
with_rest rest (err e) = err e

-- Reading a frame is opening its body, once the length is positive and in bounds.
pub read_framed :
    (z : Zlib) (max_size : ℕ) (threshold : Option ℕ) (n : ℕ) (body rest : List ℕ)
    → n ≡ length body
    → 0 < n
    → n ≤ max_size
    → IsShort n
    → read_packet_with_compression z max_size threshold (encode_varint (as_i32 n) ++ (body ++ rest))
      ≡ with_rest rest (open_body z max_size threshold body)
unfolding read_packet_with_compression
read_framed z max_size threshold n body rest hn pos fits short = ground (
  arith,
  read_varint-encode_varint n (body ++ rest) (omega arith),
  read_body-eq n (lt_wf.apply n) [] (body ++ rest),
  length-append body rest,
  take_front body rest,
  drop_front body rest,
)

split_id-encode :
    (packet : RawPacket)
    → IsU32 packet.id
    → split_id (encode_varint packet.id ++ packet.payload) ≡ ok packet
unfolding split_id
split_id-encode packet h = ground (arith, decode_varint-encode_varint packet.id packet.payload h)

pub length_plain :
    (packet : RawPacket)
    → IsU32 packet.id
    → length (encode_varint packet.id ++ packet.payload)
      ≡ varint_size packet.id + length packet.payload
length_plain packet h = omega (
  arith,
  length-append (encode_varint packet.id) packet.payload,
  varint_size-encode_varint packet.id h,
)

zero_varint_size : varint_size 0 ≡ 1
unfolding varint_size
zero_varint_size = refl

pub varint_size_bounds : (v : ℕ) → (1 ≤ varint_size v) × (varint_size v ≤ 5)
unfolding varint_size
varint_size_bounds v = ground arith

pub ok_injective {ℓ} : {A : Type ℓ} {a b : A} → ok a ≡ ok b → a ≡ b
ok_injective e = cc

pub zero_size : length (encode_varint 0) ≡ 1
zero_size = omega (arith, varint_size-encode_varint 0 (omega arith), zero_varint_size)

-- The three shapes of a frame: what the reader gets out of each body.
pub open_plain :
    (z : Zlib) (max_size : ℕ) (packet : RawPacket)
    → IsU32 packet.id
    → open_body z max_size none (encode_varint packet.id ++ packet.payload) ≡ ok packet
unfolding open_body
open_plain z max_size packet h = split_id-encode packet h

pub open_stored :
    (z : Zlib) (max_size thresh : ℕ) (packet : RawPacket)
    → IsU32 packet.id
    → open_body z max_size
        (some thresh)
        (encode_varint 0 ++ (encode_varint packet.id ++ packet.payload))
      ≡ ok packet
unfolding open_body open_compressed
open_stored z max_size thresh packet h = ground (
  arith,
  decode_varint-encode_varint 0 (encode_varint packet.id ++ packet.payload) (omega arith),
  split_id-encode packet h,
)

pub open_deflated :
    (z : Zlib) (max_size thresh n : ℕ) (packet : RawPacket) (packed : List ℕ)
    → IsZlib z
    → IsU32 packet.id
    → n ≡ varint_size packet.id + length packet.payload
    → IsShort n
    → n ≤ max_size
    → thresh ≤ n
    → z.deflate (encode_varint packet.id ++ packet.payload) ≡ ok packed
    → open_body z max_size (some thresh) (encode_varint n ++ packed) ≡ ok packet
unfolding open_body open_compressed
open_deflated z max_size thresh n packet packed law h hn short fits reached deflated = ground (
  arith,
  decode_varint-encode_varint n packed (omega arith),
  law.inflate-deflate (n + 1) (encode_varint packet.id ++ packet.payload) packed deflated,
  take_all (n + 1) (encode_varint packet.id ++ packet.payload),
  length_plain packet h,
  varint_size_bounds packet.id,
  split_id-encode packet h,
)
