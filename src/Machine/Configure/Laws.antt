-- ===== src/Machine/Configure/Laws.antt =====
-- The rounds that the configuration of a new backend is given are enough.
use frame_mc.Prelude.{ℕ, zero, suc, ◌<◌, ◌≡◌, ◌≢◌, arith, refl, length, Option}
use frame_mc.Prelude.{Bool-cases, inl, inr, ◌⊎◌, List, []}
use frame_mc.Error.{Result-cases}
use frame_mc.Packet.{RawPacket, new}
use frame_mc.Varint.{encode_varint}
use frame_mc.Codec.{
  default_max_packet_size, read_packet_with_compression, write_packet_with_compression,
}
use frame_mc.Codec.Limits.{read_packet_bounds}
use frame_mc.Stream.{Stream}
use frame_mc.Configuration.Cache.{SessionRegistryCache}
use frame_mc.Machine.{World, Chance}
use frame_mc.Machine.Configure.{
  Answer, go_on, done, give_up, unfinished, reply, finish_id, answer, configure, negotiate,
}

Answer-cases :
    (a : Answer)
    → ((s : Stream) × (c : SessionRegistryCache) × (a ≡ go_on s c))
      ⊎ (((s : Stream) × (c : SessionRegistryCache) × (a ≡ done s c))
          ⊎ ((r : List ℕ) × (c : SessionRegistryCache) × (a ≡ give_up r c)))
Answer-cases (go_on s c) = inl (s, c, refl)
Answer-cases (done s c) = inr (inl (s, c, refl))
Answer-cases (give_up r c) = inr (inr (r, c, refl))

module _ (w : World) (v : ℕ) (threshold : Option ℕ) where
  reply_leaves :
      (packet : RawPacket) (next : Stream → SessionRegistryCache → Answer) (stream s : Stream)
      (cache c : SessionRegistryCache)
      → ((t : Stream) → next t cache ≡ go_on s c → s.incoming ≡ t.incoming)
      → reply w v threshold packet next stream cache ≡ go_on s c
      → s.incoming ≡ stream.incoming
  unfolding reply
  reply_leaves packet next stream s cache c keeps e =
      elim (Result-cases (write_packet_with_compression w.zlib stream.written packet threshold)) [
        | inl (bytes, h) ↦ ground (arith, keeps (record stream { written = bytes }))
        | inr (x, h) ↦ absurd (ground arith)
      ]

  -- The stream on which the loop goes on holds what was left to read.
  answer_leaves :
      (packet : RawPacket) (stream s : Stream) (cache c : SessionRegistryCache)
      → answer w v threshold packet stream cache ≡ go_on s c
      → s.incoming ≡ stream.incoming
  unfolding answer
  answer_leaves packet stream s cache c e =
      let same : (t : Stream) → go_on t cache ≡ go_on s c → s.incoming ≡ t.incoming = λ t h. cc in
      ground (
        arith,
        reply_leaves (new 0x07 (encode_varint 0)) go_on stream s cache c same,
        reply_leaves packet go_on stream s cache c same,
        reply_leaves (new (finish_id v) []) done stream s cache c (λ t h. cc),
      )

  -- With more packets to go than bytes to read, the loop ends by itself.
  configure_ends :
      (chance : Chance) (packets : ℕ) (stream : Stream) (cache c : SessionRegistryCache)
      → length stream.incoming < packets
      → configure w v threshold chance packets stream cache ≢ unfinished c
  unfolding configure
  configure_ends chance zero stream cache c h e = absurd (omega arith)
  configure_ends chance (suc packets) stream cache c h e =
      elim (Bool-cases (chance.late stream.incoming)) [
        | inl late ↦ absurd (ground arith)
        | inr soon ↦
            elim (Result-cases (
              read_packet_with_compression w.zlib default_max_packet_size threshold
                stream.incoming)) [
                  | inr (x, r) ↦ absurd (ground arith)
                  | inl ((packet, rest), r) ↦
                      let left : Stream = record stream { incoming = rest } in
                      let read =
                        read_packet_bounds w.zlib default_max_packet_size threshold stream.incoming
                          rest packet r in
                      elim (Answer-cases (answer w v threshold packet left cache)) [
                        | inr (inr (reason, c', a)) ↦ absurd (ground arith)
                        | inr (inl (s, c', a)) ↦ absurd (ground arith)
                        | inl (s, c', a) ↦
                            let same : s.incoming ≡ rest = answer_leaves packet left s cache c' a in
                            let fewer : length s.incoming < packets =
                              rw same (omega (arith, read.1)) in
                            absurd (ground (arith, configure_ends chance packets s c' c fewer))
                      ]
                ]
      ]

  -- The rounds of the model are enough: for the bytes that a backend sends, the loop ends by itself,
  -- with a configured backend or with a reason to give the transfer up.
  pub negotiate_ends :
      (chance : Chance) (stream : Stream) (cache c : SessionRegistryCache)
      → negotiate w v threshold chance stream cache ≢ unfinished c
  unfolding negotiate
  negotiate_ends chance stream cache c e =
      ground
        (arith, configure_ends chance (suc (length stream.incoming)) stream cache c (omega arith))
