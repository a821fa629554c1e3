-- ===== src/Machine/Connector/Laws.antt =====
-- What a backend answers in a login that the connector takes for accepted.
use frame_mc.Prelude.{ℕ, ◌≡◌, arith, List, ◌++◌, true, Option, none, some}
use frame_mc.Prelude.{at_least, IsShort, inl, inr}
use frame_mc.Error.{Result-cases, ok}
use frame_mc.Wire.Laws.{decode_varint_end}
use frame_mc.Packet.{RawPacket}
use frame_mc.Codec.{
  Zlib, IsZlib, default_max_packet_size, read_packet, read_packet_with_compression,
  encode_packet_with_compression, write_packet_with_compression,
}
use frame_mc.Codec.SetCompression
use frame_mc.Codec.SetCompression.{SetCompressionPacket}
use frame_mc.Codec.RoundTrip.{Admits, read_packet-encode_packet}
use frame_mc.Stream.{Stream, receive}
use frame_mc.Login.Acknowledged
use frame_mc.Login.Acknowledged.{login_acknowledged}
use frame_mc.Machine.Connector.{
  receive_with, send_with, read_threshold, read_login, check_login, acknowledge, finish_login,
}

module _ (z : Zlib) where
  receive_lem :
      (packet : RawPacket) (rest : List ℕ) (s : Stream)
      → read_packet z default_max_packet_size s.incoming ≡ ok (packet, rest)
      → receive z s ≡ (ok packet, record s { incoming = rest })
  unfolding receive
  receive_lem packet rest s e = ground arith

  receive_with_lem :
      (threshold : Option ℕ) (packet : RawPacket) (rest : List ℕ) (s : Stream)
      → read_packet_with_compression z default_max_packet_size threshold s.incoming
        ≡ ok (packet, rest)
      → receive_with z threshold s ≡ (ok packet, record s { incoming = rest })
  unfolding receive_with
  receive_with_lem threshold packet rest s e = ground arith

  read_threshold_lem :
      (t : ℕ) → IsShort t → read_threshold (SetCompression.encode (record { threshold = t })) ≡ ok t
  unfolding read_threshold SetCompression.encode
  read_threshold_lem t h = ground (arith, decode_varint_end t (omega arith))

  -- A backend of the modern protocol that sets a compression threshold, and then accepts the login
  -- under it, is taken over with that threshold; the connector acknowledges the login under it too,
  -- and leaves what the backend sent behind its LoginSuccess. Inflating undoes deflating, and both
  -- packets are within the reader's maximum.
  pub finish_login_compressed :
      (v t : ℕ) (success : RawPacket) (set_buf buf rest acknowledged : List ℕ) (s : Stream)
      → IsZlib z
      → IsShort t
      → at_least v 764 ≡ true
      → success.id ≡ 0x02
      → encode_packet_with_compression z (SetCompression.encode (record { threshold = t })) none
        ≡ ok set_buf
      → Admits default_max_packet_size (SetCompression.encode (record { threshold = t })) set_buf
      → encode_packet_with_compression z success (some t) ≡ ok buf
      → Admits default_max_packet_size success buf
      → s.incoming ≡ set_buf ++ (buf ++ rest)
      → write_packet_with_compression z s.written (Acknowledged.encode login_acknowledged) (some t)
        ≡ ok acknowledged
      → finish_login z v s ≡ (ok (some t), record { incoming = rest; written = acknowledged })
  unfolding finish_login read_login check_login acknowledge send_with read_packet
      SetCompression.encode
  finish_login_compressed v t success set_buf buf rest acknowledged s law short modern accepted set
        set_fits encoded fits sent written =
      let set_packet = SetCompression.encode (record { threshold = t }) in
      let s1 : Stream = record s { incoming = buf ++ rest } in
      let first : read_packet z default_max_packet_size s.incoming ≡ ok (set_packet, buf ++ rest) =
        rw sent (
          read_packet-encode_packet z default_max_packet_size set_packet none set_buf (buf ++ rest)
            law set_fits set) in
      ground (
        arith,
        receive_lem set_packet (buf ++ rest) s first,
        read_threshold_lem t short,
        receive_with_lem (some t) success rest s1 (
            read_packet-encode_packet z default_max_packet_size success (some t) buf rest law fits
              encoded),
      )

  check_login_lem :
      (packet : RawPacket) (u : Unit {0}) → check_login packet ≡ ok u → packet.id ≡ 0x02
  unfolding check_login
  check_login_lem packet u e = ground arith

  -- A login is taken for accepted only if the backend's answer, behind a threshold or not, was a
  -- LoginSuccess: anything else is an error, a request for encryption among it.
  pub finish_login_accepted :
      (v : ℕ) (s s1 : Stream) (first_pkt : RawPacket) (threshold : Option ℕ)
      → (finish_login z v s).0 ≡ ok threshold
      → receive z s ≡ (ok first_pkt, s1)
      → (login : RawPacket) × ((read_login z first_pkt s1).0 ≡ ok (threshold, login))
        × (login.id ≡ 0x02)
  unfolding finish_login
  finish_login_accepted v s s1 first_pkt threshold e first =
      elim (Result-cases (read_login z first_pkt s1).0) [
        | inr (x, r) ↦ absurd (ground arith)
        | inl ((th, login), r) ↦ elim (Result-cases (check_login login)) [
          | inr (x, k) ↦ absurd (ground arith)
          | inl (u, k) ↦
              let after = acknowledge z v th (read_login z first_pkt s1).1 in
              elim (Result-cases after.0) [
                | inr (x, a) ↦ absurd (ground arith)
                | inl (u', a) ↦
                    let same : th ≡ threshold = ground arith in
                    (login, rw (← same) r, check_login_lem login u k)
              ]
        ]
      ]
