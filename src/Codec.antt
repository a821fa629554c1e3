-- ===== src/Codec.antt =====
-- src/network/codec.rs: framing and compression of packets on a stream. A reader is the list of
-- the bytes that it still gives; a writer takes the bytes that are written to it in order.
pub mod Body
pub mod Frames
pub mod RoundTrip
pub mod Limits
pub mod SetCompression
pub mod Disconnect
mod Examples
use frame_mc.Prelude.{
  ℕ, zero, suc, ◌+◌, ◌-◌, ◌*◌, ◌<◌, ◌≤◌, ◌≡◌, arith, List, [], ◌∷◌, ◌++◌, Bool, not, ◌&&◌,
}
use frame_mc.Prelude.{
  ◌||◌, ◌==◌, min, length, take, ltb, if◌then◌else◌, is_negative, as_usize, as_i32,
}
use frame_mc.Prelude.{Option, none, some, lt_wf}
use frame_mc.Error.{Result, ok, err, io, unexpected_eof, invalid_data, packet_too_large}
use frame_mc.Varint.{read_varint, decode_varint, encode_varint, varint_size}
use frame_mc.Wire.{Reader, ◌>>=◌, ◌>>◌, pure, refuse_if, take_bytes}
use frame_mc.Packet.{RawPacket, new}
use mathlib.Core.Logic.{dite}
use mathlib.Core.WellFounded.{Acc}
use native.Mathlib.Decide.{dec_lt}

-- `DEFAULT_MAX_PACKET_SIZE`
abbrev pub default_max_packet_size : ℕ
default_max_packet_size = 2097152

abbrev pub chunk_limit : ℕ
chunk_limit = 64 * 1024

-- What flate2 gives: `deflate` is a `ZlibEncoder` over a `Vec`, and `inflate limit` a
-- `ZlibDecoder` read to its end through `take(limit)`, which hands out at most `limit` bytes.
pub record Zlib : Type 0 where
  pub deflate : List ℕ → Result (List ℕ)
  pub inflate : ℕ → List ℕ → Result (List ℕ)

-- The two are inverse, up to the limit.
pub record IsZlib (z : Zlib) : Type 0 where
  pub inflate-deflate :
      (limit : ℕ) (plain packed : List ℕ)
      → z.deflate plain ≡ ok packed
      → z.inflate limit packed ≡ ok (take limit plain)

chunk_shrinks : (remaining : ℕ) → 0 < remaining → remaining - min remaining chunk_limit < remaining
chunk_shrinks remaining h = omega arith

-- The loop `while remaining > 0`, which reads the body in chunks of 64 KiB.
unfoldable pub read_body : (remaining : ℕ) → Acc ◌<◌ remaining → List ℕ → Reader (List ℕ)
unfolding take_bytes dec_lt chunk_shrinks
read_body remaining (Acc.intro _ smaller) body reader =
    dite (dec_lt 0 remaining)
      (λ more. elim (take_bytes (min remaining chunk_limit) reader) [
        | err e ↦ err e
        | ok (chunk, rest) ↦
            read_body (remaining - min remaining chunk_limit)
              (smaller (remaining - min remaining chunk_limit) (chunk_shrinks remaining more))
              (body ++ chunk) rest
      ])
      (λ _. ok (body, reader))

-- `let id = decode_varint(&mut cursor)?; RawPacket { id, payload: cursor }`
unfoldable pub split_id : List ℕ → Result RawPacket
split_id cursor = elim (decode_varint cursor) [ ok (id, rest) ↦ ok (new id rest) | err e ↦ err e ]

module _ (z : Zlib) where
  -- The part behind the frame, when a compression threshold is set.
  unfoldable pub open_compressed : ℕ → ℕ → List ℕ → Result RawPacket
  open_compressed max_size thresh body = elim (decode_varint body) [
    | err e ↦ err e
    | ok (data_length, cursor) ↦
        if is_negative data_length || ltb max_size (as_usize data_length)
        then err (packet_too_large (as_usize data_length))
        else if ltb 0 data_length && ltb (as_usize data_length) thresh
        then err (io invalid_data)
        else if data_length == 0
        then split_id cursor
        else elim (z.inflate (as_usize data_length + 1) cursor) [
          | err e ↦ err e
          | ok plain ↦
              if length plain == as_usize data_length then split_id plain else err (io invalid_data)
        ]
  ]

  unfoldable pub open_body : ℕ → Option ℕ → List ℕ → Result RawPacket
  open_body max_size none body = split_id body
  open_body max_size (some thresh) body = open_compressed max_size thresh body

  unfoldable pub read_packet_with_compression : ℕ → Option ℕ → Reader RawPacket
  read_packet_with_compression max_size threshold = do
    len ← read_varint
    refuse_if (is_negative len || ltb max_size (as_usize len)) (packet_too_large (as_usize len))
    refuse_if (len == 0) (io unexpected_eof)
    body ← read_body (as_usize len) (lt_wf.apply (as_usize len)) []
    λ reader. elim (open_body max_size threshold body) [
      | ok packet ↦ ok (packet, reader)
      | err e ↦ err e
    ]

  unfoldable pub read_packet : ℕ → Reader RawPacket
  read_packet max_size = read_packet_with_compression max_size none

  -- `data_length` is the uncompressed length, which the frame states.
  unfoldable pub encode_packet_with_compression : RawPacket → Option ℕ → Result (List ℕ)
  encode_packet_with_compression packet none =
      let total_length = varint_size packet.id + length packet.payload in
      ok (encode_varint (as_i32 total_length) ++ (encode_varint packet.id ++ packet.payload))
  encode_packet_with_compression packet (some thresh) =
      let uncompressed_len = varint_size packet.id + length packet.payload in
      if ltb uncompressed_len thresh
      then ok (
          encode_varint (as_i32 (1 + uncompressed_len))
          ++ (encode_varint 0 ++ (encode_varint packet.id ++ packet.payload)))
      else elim (z.deflate (encode_varint packet.id ++ packet.payload)) [
        | err e ↦ err e
        | ok compressed ↦
            let total = varint_size (as_i32 uncompressed_len) + length compressed in
            ok (
              encode_varint (as_i32 total)
              ++ (encode_varint (as_i32 uncompressed_len) ++ compressed))
      ]

  -- What a writer holds after the packet: the bytes that it held and the frame, all or nothing.
  unfoldable pub write_packet_with_compression : List ℕ → RawPacket → Option ℕ → Result (List ℕ)
  write_packet_with_compression written packet threshold =
      elim (encode_packet_with_compression packet threshold) [
        | ok buf ↦ ok (written ++ buf)
        | err e ↦ err e
      ]

  unfoldable pub write_packet : List ℕ → RawPacket → Result (List ℕ)
  write_packet written packet = write_packet_with_compression written packet none
