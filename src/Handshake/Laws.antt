-- ===== src/Handshake/Laws.antt =====
-- The Handshake packet is read back, and the host name ends before the forwarded data.
use frame_mc.Prelude.{ℕ, ◌≡◌, ◌≢◌, arith, refl, List, [], ◌∷◌, ◌++◌, length, All}
use frame_mc.Prelude.{IsU32, IsU16, ◌⊎◌, inl, inr, append_assoc, as_i32, as_usize}
use frame_mc.Error.{ok}
use frame_mc.Varint.{encode_varint}
use frame_mc.Varint.RoundTrip.{decode_varint-encode_varint}
use frame_mc.Wire.{put_block, put_u16, IsText}
use frame_mc.Wire.Laws.{decode_varint_end, take_bytes-append, from_utf8_lem}
use frame_mc.Packet.{RawPacket}
use frame_mc.Handshake.{
  ConnectionState, status, login, HandshakePacket, read_fields, decode, encode,
}
use frame_mc.Handshake.{read_next_state, next_state_val, until_zero, clean_hostname}

-- What a handshake must be for its wire form to be read back.
pub record IsHandshake (packet : HandshakePacket) : Type 0 where
  pub version : IsU32 packet.protocol_version
  pub address : IsText packet.server_address
  pub port : IsU16 packet.server_port
  pub state : (packet.next_state ≡ status) ⊎ (packet.next_state ≡ login)

read_next_state_lem :
    (s : ConnectionState) (rest : List ℕ)
    → (s ≡ status) ⊎ (s ≡ login)
    → read_next_state (next_state_val s) rest ≡ ok (s, rest)
unfolding read_next_state next_state_val
read_next_state_lem s rest h = ground arith

next_state_val-IsU32 : (s : ConnectionState) → IsU32 (next_state_val s)
unfolding next_state_val
next_state_val-IsU32 s = ground arith

-- A handshake towards Status or Login is decoded to what was encoded, for a version that is an
-- `i32`, a port of 16 bits, and an address in UTF-8 that is shorter than 2 ^ 31.
pub decode-encode_handshake :
    (packet : HandshakePacket) → IsHandshake packet → decode (encode packet) ≡ ok packet
unfolding decode encode read_fields put_block
decode-encode_handshake packet h =
    let tail : List ℕ =
      put_u16 packet.server_port ++ encode_varint (next_state_val packet.next_state) in
    rw append_assoc (
      ground (
        arith,
        decode_varint-encode_varint packet.protocol_version
            (encode_varint (as_i32 (length packet.server_address))
              ++ (packet.server_address ++ tail))
            h.version,
        decode_varint-encode_varint (as_i32 (length packet.server_address))
            (packet.server_address ++ tail) (omega arith),
        take_bytes-append packet.server_address tail
            (as_usize (as_i32 (length packet.server_address))),
        from_utf8_lem packet.server_address tail h.address,
        h.address.short,
        decode_varint_end (next_state_val packet.next_state)
            (next_state_val-IsU32 packet.next_state),
        read_next_state_lem packet.next_state [] h.state,
      ))

until_zero-append :
    (host rest : List ℕ) → All (λ b. b ≢ 0) host → until_zero (host ++ (0 ∷ rest)) ≡ host
unfolding until_zero
until_zero-append [] rest h = refl
until_zero-append (b ∷ bs) rest h = ground (arith, until_zero-append bs rest h.1)

until_zero-All : (host : List ℕ) → All (λ b. b ≢ 0) host → until_zero host ≡ host
unfolding until_zero
until_zero-All [] h = refl
until_zero-All (b ∷ bs) h = ground (arith, until_zero-All bs h.1)

-- The host name of a handshake is what stands before the first zero byte: the whole address when
-- it holds none, and the host alone when forwarded data follow it behind a zero byte.
pub clean_hostname_lem :
    (packet : HandshakePacket) (host rest : List ℕ)
    → All (λ b. b ≢ 0) host
    → (packet.server_address ≡ host) ⊎ (packet.server_address ≡ host ++ (0 ∷ rest))
    → clean_hostname packet ≡ host
unfolding clean_hostname
clean_hostname_lem packet host rest h (inl e) = rw e (until_zero-All host h)
clean_hostname_lem packet host rest h (inr e) = rw e (until_zero-append host rest h)

-- A packet that is accepted as a handshake has the id 0, and is one towards Status or Login.
pub decode_next_state :
    (raw : RawPacket) (packet : HandshakePacket)
    → decode raw ≡ ok packet
    → (raw.id ≡ 0x00) × ((packet.next_state ≡ status) ⊎ (packet.next_state ≡ login))
unfolding decode read_fields read_next_state
decode_next_state raw packet e = ground arith
