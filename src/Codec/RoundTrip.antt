-- ===== src/Codec/RoundTrip.antt =====
-- A packet that is written to a stream is read back from it, with the bytes behind it left there.
use frame_mc.Prelude.{ℕ, ◌+◌, ◌<◌, ◌≤◌, ◌≡◌, arith, List, ◌++◌, length}
use frame_mc.Prelude.{refl, append_assoc, length-append, ap, sym, ◌∙◌}
use frame_mc.Prelude.{Option, none, some, as_i32, IsU32, IsShort}
use frame_mc.Prelude.{inl, inr, ◌⊎◌}
use frame_mc.Error.{ok}
use frame_mc.Varint.{encode_varint, varint_size}
use frame_mc.Varint.Bounds.{varint_size-encode_varint}
use frame_mc.Packet.{RawPacket}
use frame_mc.Codec.{Zlib, IsZlib, open_body}
use frame_mc.Codec.{read_packet_with_compression, encode_packet_with_compression}
use frame_mc.Codec.Frames.{
  with_rest, read_framed, length_plain, varint_size_bounds, zero_size, ok_injective,
}
use frame_mc.Codec.Frames.{open_plain, open_stored, open_deflated}

-- The bounds within which a frame is read back: the packet and its frame are at most `max_size`
-- bytes, and that is a size that an `i32` holds.
pub record Admits (max_size : ℕ) (packet : RawPacket) (buf : List ℕ) : Type 0 where
  pub id : IsU32 packet.id
  pub max_short : IsShort max_size
  pub packet_fits : varint_size packet.id + length packet.payload ≤ max_size
  pub frame_fits : length buf ≤ max_size

module _ (z : Zlib) (max_size : ℕ) (packet : RawPacket) (buf rest : List ℕ)
    (h : Admits max_size packet buf) where
  read_of_open :
      (threshold : Option ℕ) (n : ℕ) (body : List ℕ)
      → open_body z max_size threshold body ≡ ok packet
      → buf ≡ encode_varint (as_i32 n) ++ body
      → n ≡ length body
      → 0 < n
      → read_packet_with_compression z max_size threshold (buf ++ rest) ≡ ok (packet, rest)
  read_of_open threshold n body opened e hn pos =
      let within : length (encode_varint (as_i32 n)) + length body ≤ max_size =
        rw (e, length-append) at h.frame_fits in
      rw (e, append_assoc)
        (read_framed z max_size threshold n body rest hn pos (omega arith)
            (omega (arith, h.max_short))
          ∙ ap (with_rest rest) opened)

  read_plain :
      ok buf ≡ encode_packet_with_compression z packet none
      → read_packet_with_compression z max_size none (buf ++ rest) ≡ ok (packet, rest)
  unfolding encode_packet_with_compression
  read_plain e =
      read_of_open none _ (encode_varint packet.id ++ packet.payload)
        (open_plain z max_size packet h.id) (ok_injective e) (sym (length_plain packet h.id))
        (omega (arith, varint_size_bounds packet.id))

  read_stored :
      (thresh : ℕ)
      → buf
        ≡ encode_varint (as_i32 (1 + (varint_size packet.id + length packet.payload)))
          ++ (encode_varint 0 ++ (encode_varint packet.id ++ packet.payload))
      → read_packet_with_compression z max_size (some thresh) (buf ++ rest) ≡ ok (packet, rest)
  read_stored thresh e =
      read_of_open (some thresh) _ (encode_varint 0 ++ (encode_varint packet.id ++ packet.payload))
        (open_stored z max_size thresh packet h.id) e
        (omega (
          arith,
          length-append (encode_varint 0) (encode_varint packet.id ++ packet.payload),
          length_plain packet h.id,
          zero_size,
        ))
        (omega arith)

  read_deflated :
      (thresh : ℕ) (packed : List ℕ)
      → IsZlib z
      → thresh ≤ varint_size packet.id + length packet.payload
      → z.deflate (encode_varint packet.id ++ packet.payload) ≡ ok packed
      → buf
        ≡ encode_varint (
            as_i32 (
              varint_size (as_i32 (varint_size packet.id + length packet.payload)) + length packed))
          ++ (encode_varint (as_i32 (varint_size packet.id + length packet.payload)) ++ packed)
      → read_packet_with_compression z max_size (some thresh) (buf ++ rest) ≡ ok (packet, rest)
  read_deflated thresh packed law reached deflated e =
      let n : ℕ = varint_size packet.id + length packet.payload in
      let small : as_i32 n ≡ n = omega (arith, h.max_short, h.packet_fits) in
      read_of_open (some thresh) _ (encode_varint (as_i32 n) ++ packed)
        (rw small (
          open_deflated z max_size thresh n packet packed law h.id refl
            (omega (arith, h.max_short, h.packet_fits)) h.packet_fits reached deflated))
        e
        (omega (
          arith,
          length-append (encode_varint (as_i32 n)) packed,
          varint_size-encode_varint (as_i32 n) (omega arith),
        ))
        (omega (arith, varint_size_bounds (as_i32 n)))

encode_some-cases :
    (z : Zlib) (packet : RawPacket) (thresh : ℕ) (buf : List ℕ)
    → encode_packet_with_compression z packet (some thresh) ≡ ok buf
    → (buf
        ≡ encode_varint (as_i32 (1 + (varint_size packet.id + length packet.payload)))
          ++ (encode_varint 0 ++ (encode_varint packet.id ++ packet.payload)))
      ⊎ ((packed : List ℕ) × (z.deflate (encode_varint packet.id ++ packet.payload) ≡ ok packed)
          × (thresh ≤ varint_size packet.id + length packet.payload)
          × (buf
              ≡ encode_varint (
                  as_i32 (
                    varint_size (as_i32 (varint_size packet.id + length packet.payload))
                    + length packed))
                ++ (encode_varint (as_i32 (varint_size packet.id + length packet.payload))
                    ++ packed)))
unfolding encode_packet_with_compression
encode_some-cases z packet thresh buf e = ground arith

-- A packet that is encoded, plain or under a compression threshold, is read back from the stream
-- by a reader with the same threshold, and what follows it stays in the stream. Conditions:
-- inflating undoes deflating, the id is an `i32`, the reader's maximum is below 2 ^ 31, and the
-- size of the packet and the size of its frame are within that maximum.
pub read_packet-encode_packet :
    (z : Zlib) (max_size : ℕ) (packet : RawPacket) (threshold : Option ℕ) (buf rest : List ℕ)
    → IsZlib z
    → Admits max_size packet buf
    → encode_packet_with_compression z packet threshold ≡ ok buf
    → read_packet_with_compression z max_size threshold (buf ++ rest) ≡ ok (packet, rest)
read_packet-encode_packet z max_size packet none buf rest law h e =
    read_plain z max_size packet buf rest h (sym e)
read_packet-encode_packet z max_size packet (some thresh) buf rest law h e =
    elim (encode_some-cases z packet thresh buf e) [
      | inl stored ↦ read_stored z max_size packet buf rest h thresh stored
      | inr (packed, deflated, reached, eq) ↦
          read_deflated z max_size packet buf rest h thresh packed law reached deflated eq
    ]
