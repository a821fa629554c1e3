-- ===== src/Codec/Limits.antt =====
-- What the packet reader takes and refuses, on any stream.
use frame_mc.Prelude.{ℕ, suc, ◌+◌, ◌<◌, ◌≤◌, ◌≡◌, arith, List, [], ◌∷◌, ◌++◌, length, take}
use frame_mc.Prelude.{refl, sym, length-append, lt_wf, ◌⊎◌, inl, inr}
use frame_mc.Prelude.{
  Option, none, some, as_i32, as_usize, IsU32, IsShort, length-drop, length-take,
}
use frame_mc.Error.{Result-cases, ok, err, io, unexpected_eof}
use frame_mc.Varint.{
  Format, varint, add_group, read_loop, decode_varint, read_varint, encode_varint,
}
use frame_mc.Varint.Bounds.{decode_varint_truncated}
use frame_mc.Packet.{RawPacket}
use frame_mc.Codec.{Zlib, split_id, open_compressed, open_body}
use frame_mc.Codec.{read_packet_with_compression}
use frame_mc.Codec.Body.{read_body-eq}
use frame_mc.Codec.Frames.{read_varint-encode_varint}

read_loop_shorter :
    (f : Format) (src : List ℕ) (value position n v : ℕ) (rest : List ℕ)
    → read_loop f src value position n ≡ ok (v, rest)
    → length rest < length src
unfolding read_loop
read_loop_shorter f [] value position n v rest e = cc
read_loop_shorter f (b ∷ bs) value position n v rest e =
    ground
      (arith, read_loop_shorter f bs (add_group f value b position) (position + 7) (n + 1) v rest)

decode_varint_shorter :
    (src : List ℕ) (v : ℕ) (rest : List ℕ)
    → decode_varint src ≡ ok (v, rest)
    → length rest < length src
unfolding decode_varint
decode_varint_shorter src v rest e = read_loop_shorter varint src 0 0 0 v rest e

read_varint_shorter :
    (src : List ℕ) (v : ℕ) (rest : List ℕ)
    → read_varint src ≡ ok (v, rest)
    → length rest < length src
unfolding read_varint
read_varint_shorter src v rest e = read_loop_shorter varint src 0 0 0 v rest e

split_id_shorter :
    (body : List ℕ) (packet : RawPacket)
    → split_id body ≡ ok packet
    → length packet.payload < length body
unfolding split_id
split_id_shorter body packet e = elim (Result-cases (decode_varint body)) [
  | inl ((v, rest), d) ↦ ground (arith, decode_varint_shorter body v rest d)
  | inr (x, d) ↦ ground arith
]

open_body_bounded :
    (z : Zlib) (max_size : ℕ) (threshold : Option ℕ) (body : List ℕ) (packet : RawPacket)
    → length body ≤ max_size
    → open_body z max_size threshold body ≡ ok packet
    → length packet.payload < max_size
unfolding open_body open_compressed
open_body_bounded z max_size none body packet h e = omega (arith, split_id_shorter body packet e)
open_body_bounded z max_size (some thresh) body packet h e =
    elim (Result-cases (decode_varint body)) [
      | inr (x, d) ↦ ground arith
      | inl ((n, cursor), d) ↦ elim (Result-cases (z.inflate (as_usize n + 1) cursor)) [
        | inr (x, i) ↦
            ground (arith, decode_varint_shorter body n cursor d, split_id_shorter cursor packet)
        | inl (plain, i) ↦ ground (
          arith,
          decode_varint_shorter body n cursor d,
          split_id_shorter cursor packet,
          split_id_shorter plain packet,
        )
      ]
    ]

-- On any stream: a packet that is accepted has a payload below the reader's maximum, inflated or
-- not, and the reader has taken at least one byte.
pub read_packet_bounds :
    (z : Zlib) (max_size : ℕ) (threshold : Option ℕ) (reader rest : List ℕ) (packet : RawPacket)
    → read_packet_with_compression z max_size threshold reader ≡ ok (packet, rest)
    → (length packet.payload < max_size) × (length rest < length reader)
unfolding read_packet_with_compression
read_packet_bounds z max_size threshold reader rest packet e =
    elim (Result-cases (read_varint reader)) [
      | inr (x, r) ↦ ground arith
      | inl ((n, stream), r) ↦
          let body : List ℕ = take (as_usize n) stream in
          ground (
            arith,
            read_varint_shorter reader n stream r,
            read_body-eq (as_usize n) (lt_wf.apply (as_usize n)) [] stream,
            length-take (as_usize n) stream,
            length-drop (as_usize n) stream,
            open_body_bounded z max_size threshold body packet,
          )
    ]

-- Where the cut of a list falls, when the list is two parts.
split_cut :
    (xs ys : List ℕ) (x : ℕ) (front back : List ℕ)
    → front ++ (x ∷ back) ≡ xs ++ ys
    → ((y : ℕ) × (more : List ℕ) × (xs ≡ front ++ (y ∷ more)))
      ⊎ ((part : List ℕ) × (front ≡ xs ++ part) × (ys ≡ part ++ (x ∷ back)))
split_cut [] ys x front back e = inr (front, refl, sym e)
split_cut (a ∷ xs) ys x [] back e = inl (a, xs, refl)
split_cut (a ∷ xs) ys x (b ∷ front) back e = elim (split_cut xs ys x front back (cc)) [
  | inl (y, more, h) ↦ inl (y, more, cc)
  | inr (part, h, k) ↦ inr (part, cc, k)
]

read_varint_truncated :
    (n y : ℕ) (front more : List ℕ)
    → IsU32 n
    → encode_varint n ≡ front ++ (y ∷ more)
    → read_varint front ≡ err (io unexpected_eof)
unfolding read_varint decode_varint
read_varint_truncated n y front more h e = decode_varint_truncated n y front more h e

truncated_prefix :
    (z : Zlib) (max_size : ℕ) (threshold : Option ℕ) (n y : ℕ) (front more : List ℕ)
    → IsU32 n
    → encode_varint n ≡ front ++ (y ∷ more)
    → read_packet_with_compression z max_size threshold front ≡ err (io unexpected_eof)
unfolding read_packet_with_compression
truncated_prefix z max_size threshold n y front more h e =
    ground (arith, read_varint_truncated n y front more h e)

truncated_body :
    (z : Zlib) (max_size : ℕ) (threshold : Option ℕ) (n : ℕ) (part : List ℕ)
    → length part < n
    → n ≤ max_size
    → IsShort n
    → read_packet_with_compression z max_size threshold (encode_varint (as_i32 n) ++ part)
      ≡ err (io unexpected_eof)
unfolding read_packet_with_compression
truncated_body z max_size threshold n part cut fits short =
    ground (
      arith,
      read_varint-encode_varint n part (omega arith),
      read_body-eq n (lt_wf.apply n) [] part,
    )

-- A frame that ends early, anywhere before its last byte, is answered by an `UnexpectedEof`, and
-- never taken for a packet. Its body is within the reader's maximum, which is below 2 ^ 31.
pub read_packet_truncated :
    (z : Zlib) (max_size : ℕ) (threshold : Option ℕ) (x : ℕ) (body front back : List ℕ)
    → length body ≤ max_size
    → IsShort max_size
    → front ++ (x ∷ back) ≡ encode_varint (as_i32 (length body)) ++ body
    → read_packet_with_compression z max_size threshold front ≡ err (io unexpected_eof)
read_packet_truncated z max_size threshold x body front back fits short e =
    elim (split_cut (encode_varint (as_i32 (length body))) body x front back e) [
      | inl (y, more, h) ↦
          truncated_prefix z max_size threshold (as_i32 (length body)) y front more (omega arith) h
      | inr (part, h, k) ↦
          let longer : length body ≡ length part + suc (length back) = rw (k, length-append) in
          rw h (
            truncated_body z max_size threshold (length body) part (omega arith) fits (omega arith))
    ]
