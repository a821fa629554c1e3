-- ===== src/Stream.antt =====
-- One connection as the protocol code sees it: the bytes that the peer still sends, and the bytes
-- that were written to it. Writes of the operating system succeed; a time limit is an argument
-- that says whether it passed before a packet came.
use frame_mc.Prelude.{ℕ, ◌≡◌, refl, List, ◌++◌, Bool, true, false}
use frame_mc.Error.{Result, ProxyError, ok, err}
use frame_mc.Packet.{RawPacket, frame}
use frame_mc.Codec.{
  Zlib, read_packet, write_packet, default_max_packet_size, write_packet_with_compression,
}
use frame_mc.Codec.{encode_packet_with_compression}

pub record Stream : Type 0 where
  pub incoming : List ℕ
  pub written : List ℕ

-- A step on a connection; what was written before an error stays written.
abbrev pub Action : Type 0 → Type 0
Action A = Stream → Result A × Stream

infixl 5 ◌>>=◌ ◌>>◌
abbrev pub ◌>>=◌ : {A B : Type 0} → Action A → (A → Action B) → Action B
◌>>=◌ m f s = elim (m s).0 [ ok a ↦ f a (m s).1 | err e ↦ (err e, (m s).1) ]

abbrev pub ◌>>◌ : {B : Type 0} → Action (Unit {0}) → Action B → Action B
m >> k = m >>= λ _. k

abbrev pub pure : {A : Type 0} → A → Action A
pure a s = (ok a, s)

abbrev pub raise : {A : Type 0} → ProxyError → Action A
raise e s = (err e, s)

abbrev pub lift : {A : Type 0} → Result A → Action A
lift r s = (r, s)

-- `tokio::time::timeout(limit, m).await.map_err(…)?`
abbrev pub within : {A : Type 0} → Bool → ProxyError → Action A → Action A
within true late m s = (err late, s)
within false late m s = m s

module _ (z : Zlib) where
  unfoldable pub receive : Action RawPacket
  receive s = elim (read_packet z default_max_packet_size s.incoming) [
    | ok (packet, rest) ↦ (ok packet, record s { incoming = rest })
    | err e ↦ (err e, s)
  ]

  unfoldable pub send : RawPacket → Action (Unit {0})
  send packet s = elim (write_packet z s.written packet) [
    | ok bytes ↦ (ok tt, record s { written = bytes })
    | err e ↦ (err e, s)
  ]

  -- A packet without compression is its frame, and always written whole.
  pub send_lem :
      (packet : RawPacket) (s : Stream)
      → send packet s ≡ (ok tt, record s { written = s.written ++ frame packet })
  unfolding send write_packet write_packet_with_compression encode_packet_with_compression frame
  send_lem packet s = refl
