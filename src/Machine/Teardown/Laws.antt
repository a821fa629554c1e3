-- ===== src/Machine/Teardown/Laws.antt =====
-- After a teardown nothing of the old server is left on the client, and the client was told so.
use frame_mc.Prelude.{
  ℕ, ◌≡◌, refl, arith, List, [], ◌∷◌, ◌++◌, Bool, true, false, Option, none, some, map,
}
use frame_mc.Prelude.{append-nil, append_assoc, inl, inr}
use frame_mc.Error.{Result-cases, ok, err}
use frame_mc.Packet.{RawPacket, frame}
use frame_mc.Stream.{Stream}
use frame_mc.Codec.{Zlib, write_packet_with_compression, encode_packet_with_compression}
use frame_mc.Machine.Method.{then_ok, ◌>>◌}
use frame_mc.Prelude.{ap, ◌∙◌}
use frame_mc.Machine.{World, PlayStateMachine, send_client, put_client}
use frame_mc.Machine.Teardown.{
  close_packet, stop_packet, objective_packet, slot_packet, boss_bar_packet, send_each, close_open,
  stop_active, drain_objectives, drain_slots, drain_boss_bars, teardown_transferred_state,
}

-- What a client holds when packets are written one after the other and failures are passed over.
unfoldable pub deliver : Zlib → Option ℕ → List ℕ → List RawPacket → List ℕ
deliver z threshold written [] = written
deliver z threshold written (p ∷ ps) =
    deliver z threshold
      (elim (write_packet_with_compression z written p threshold) [
        | ok bytes ↦ bytes
        | err e ↦ written
      ])
      ps

pub frames : List RawPacket → List ℕ
frames [] = []
frames (p ∷ ps) = frame p ++ frames ps

deliver-append :
    (z : Zlib) (threshold : Option ℕ) (ps qs : List RawPacket) (written : List ℕ)
    → deliver z threshold written (ps ++ qs)
      ≡ deliver z threshold (deliver z threshold written ps) qs
unfolding deliver
deliver-append z threshold [] qs written = refl
deliver-append z threshold (p ∷ ps) qs written = deliver-append z threshold ps qs _

written_all :
    (z : Zlib) (threshold : Option ℕ) (a b c d e : List RawPacket) (written : List ℕ)
    → deliver z threshold
        (deliver z threshold
          (deliver z threshold (deliver z threshold (deliver z threshold written a) b) c)
          d)
        e
      ≡ deliver z threshold written (a ++ (b ++ (c ++ (d ++ e))))
written_all z threshold a b c d e written = simp (deliver-append)

-- Without compression every packet is written.
pub deliver-frames :
    (z : Zlib) (written : List ℕ) (ps : List RawPacket)
    → deliver z none written ps ≡ written ++ frames ps
unfolding deliver frames write_packet_with_compression encode_packet_with_compression frame
deliver-frames z written [] = rw append-nil refl
deliver-frames z written (p ∷ ps) =
    rw (deliver-frames z (written ++ frame p) ps) (append_assoc written (frame p) (frames ps))

pub close_packets : ℕ → Option ℕ → List RawPacket
close_packets v none = []
close_packets v (some window_id) = close_packet v window_id ∷ []

pub stop_packets : ℕ → Bool → List RawPacket
stop_packets v false = []
stop_packets v true = stop_packet v ∷ []

module _ (w : World) where
  -- The packets that undo what the old server left: the open window, the sounds, each objective,
  -- each display slot and each boss bar.
  unfoldable pub reset_packets : PlayStateMachine w → List RawPacket
  reset_packets m =
      let v = m.session.protocol_version in
      close_packets v m.open_container_id
      ++ (stop_packets v m.has_active_audio
          ++ (map (objective_packet v) (w.order m.active_scoreboard_objectives)
              ++ (map (slot_packet v) (w.slot_order m.active_display_slots)
                  ++ map (boss_bar_packet v) (w.order m.active_boss_bars))))

  -- The machine with nothing tracked and these bytes written to the client.
  unfoldable pub cleaned : PlayStateMachine w → List ℕ → PlayStateMachine w
  cleaned m written =
      let client : Stream = record m.client { written = written } in
      record m {
        client = client;
        open_container_id = none;
        has_active_audio = false;
        active_boss_bars = [];
        active_scoreboard_objectives = [];
        active_display_slots = [];
      }

  send_client-deliver :
      (p : RawPacket) (m : PlayStateMachine w)
      → (send_client w p m).1
        ≡ put_client w (deliver w.zlib m.client_compression_threshold m.client.written (p ∷ [])) m
  unfolding send_client put_client deliver
  send_client-deliver p m =
      elim (Result-cases
        (write_packet_with_compression w.zlib m.client.written p m.client_compression_threshold)) [
          | inl (bytes, e) ↦ ground arith
          | inr (x, e) ↦ ground arith
        ]

  send_each-deliver :
      {A : Type 0} (f : A → RawPacket) (xs : List A) (m : PlayStateMachine w)
      → send_each w f xs m ≡ (
        ok tt,
        put_client w (deliver w.zlib m.client_compression_threshold m.client.written (map f xs)) m,
      )
  unfolding send_each put_client deliver
  send_each-deliver f [] m = refl
  send_each-deliver f (x ∷ xs) m =
      let m' = (send_client w (f x) m).1 in
      ground (arith, send_client-deliver (f x) m, send_each-deliver f xs m')

  -- The machine after the packets, whatever else it became before.
  after : PlayStateMachine w → List RawPacket → PlayStateMachine w
  after m ps = put_client w (deliver w.zlib m.client_compression_threshold m.client.written ps) m

  close_open_lem :
      (m : PlayStateMachine w) (o : Option ℕ)
      → m.open_container_id ≡ o
      → close_open w o m ≡ (
        ok tt,
        after (record m { open_container_id = none }) (close_packets m.session.protocol_version o),
      )
  unfolding close_open after close_packets put_client deliver
  close_open_lem m none e = ground arith
  close_open_lem m (some id) e = ground (
    arith,
    send_client-deliver (close_packet m.session.protocol_version id)
        (record m { open_container_id = none }),
  )

  stop_active_lem :
      (m : PlayStateMachine w) (b : Bool)
      → m.has_active_audio ≡ b
      → stop_active w b m ≡ (
        ok tt,
        after (record m { has_active_audio = false }) (stop_packets m.session.protocol_version b),
      )
  unfolding stop_active after stop_packets put_client deliver
  stop_active_lem m false e = ground arith
  stop_active_lem m true e = ground (
    arith,
    send_client-deliver (stop_packet m.session.protocol_version)
        (record m { has_active_audio = false }),
  )

  -- A teardown leaves nothing tracked, changes nothing else but the bytes written to the client, and
  -- writes to it the packets that undo each thing that was tracked, in this order.
  pub teardown_lem :
      (m : PlayStateMachine w)
      → teardown_transferred_state w m ≡ (
        ok tt,
        cleaned m
            (deliver w.zlib m.client_compression_threshold m.client.written (reset_packets m)),
      )
  unfolding teardown_transferred_state drain_objectives drain_slots drain_boss_bars put_client
      cleaned reset_packets after
  teardown_lem m =
      let v = m.session.protocol_version in
      let threshold = m.client_compression_threshold in
      let objectives = map (objective_packet v) (w.order m.active_scoreboard_objectives) in
      let slots = map (slot_packet v) (w.slot_order m.active_display_slots) in
      let bars = map (boss_bar_packet v) (w.order m.active_boss_bars) in
      let close = close_packets v m.open_container_id in
      let stop = stop_packets v m.has_active_audio in
      let m1 = after (record m { open_container_id = none }) close in
      let m2 = after (record m1 { has_active_audio = false }) stop in
      let m3 = after (record m2 { active_scoreboard_objectives = [] }) objectives in
      let m4 = after (record m3 { active_display_slots = [] }) slots in
      let m5 = after (record m4 { active_boss_bars = [] }) bars in
      let written : m5.client.written
          ≡ deliver w.zlib threshold m.client.written (reset_packets m) =
        written_all w.zlib threshold close stop objectives slots bars m.client.written in
      let to_slots = drain_slots w >> drain_boss_bars w in
      let to_objectives = drain_objectives w >> to_slots in
      let to_audio =
        (λ (s : PlayStateMachine w). stop_active w s.has_active_audio s) >> to_objectives in
      then_ok (λ (s : PlayStateMachine w). close_open w s.open_container_id s) to_audio m m1
        (close_open_lem m m.open_container_id refl)
      ∙ then_ok (λ (s : PlayStateMachine w). stop_active w s.has_active_audio s) to_objectives m1 m2
          (stop_active_lem m1 m.has_active_audio refl)
      ∙ then_ok (drain_objectives w) to_slots m2 m3 (
          send_each-deliver (objective_packet v) (w.order m.active_scoreboard_objectives)
            (record m2 { active_scoreboard_objectives = [] }))
      ∙ then_ok (drain_slots w) (drain_boss_bars w) m3 m4 (
          send_each-deliver (slot_packet v) (w.slot_order m.active_display_slots)
            (record m3 { active_display_slots = [] }))
      ∙ send_each-deliver (boss_bar_packet v) (w.order m.active_boss_bars)
          (record m4 { active_boss_bars = [] })
      ∙ ap (λ (bytes : List ℕ). (ok tt, cleaned m bytes)) written
