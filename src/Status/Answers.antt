-- ===== src/Status/Answers.antt =====
-- What a server list ping is answered, and when.
use frame_mc.Prelude.{ap}
use frame_mc.Prelude.{
  ℕ, ◌≡◌, ◌≤◌, arith, refl, List, ◌++◌, Bool, true, false, some, length, ◌⊎◌, inl, inr,
  Option-cases,
}
use frame_mc.Error.{Result, Result-cases, ProxyError, ok, err}
use frame_mc.Packet.{RawPacket, new, frame}
use frame_mc.Codec.{Zlib, read_packet, default_max_packet_size}
use frame_mc.Config.{ProxyConfig}
use frame_mc.Stream.{Stream, receive, send_lem}
use frame_mc.Status.{
  Json, status_response, to_json, response_packet, answer_ping, serve_ping, serve_request,
  handle_status_with_version,
}

module _ (z : Zlib) (json : Json) (config : ProxyConfig) (version : ℕ) where
  -- The ping that a stream gave, and its echo.
  pub record Echoed (s s' : Stream) : Type 0 where
    pub ping : RawPacket
    pub rest : List ℕ
    pub read : read_packet z default_max_packet_size s.incoming ≡ ok (ping, rest)
    pub id : ping.id ≡ 0x01
    pub long : 8 ≤ length ping.payload
    pub written : s'.written ≡ s.written ++ frame (new 0x01 ping.payload)

  serve_ping-ok :
      (late : Bool) (s s' : Stream)
      → serve_ping z json late s ≡ (ok tt, s')
      → (s'.written ≡ s.written) ⊎ Echoed s s'
  unfolding serve_ping answer_ping receive
  serve_ping-ok true s s' e = inl (ground arith)
  serve_ping-ok false s s' e =
      elim (Result-cases (read_packet z default_max_packet_size s.incoming)) [
        | inr (x, r) ↦ inl (ground arith)
        | inl ((ping, rest), r) ↦ inr (record {
          ping = ping;
          rest = rest;
          read = r;
          id = ground arith;
          long = ground arith;
          written =
              ground (arith, send_lem z (new 0x01 ping.payload) (record s { incoming = rest }));
        })
      ]

  serve_ping-err :
      (late : Bool) (x : ProxyError) (s s' : Stream)
      → serve_ping z json late s ≡ (err x, s')
      → s'.written ≡ s.written
  unfolding serve_ping answer_ping receive
  serve_ping-err true x s s' e = absurd (ground arith)
  serve_ping-err false x s s' e =
      elim (Result-cases (read_packet z default_max_packet_size s.incoming)) [
        | inr (y, r) ↦ ground arith
        | inl ((ping, rest), r) ↦
            ground (arith, send_lem z (new 0x01 ping.payload) (record s { incoming = rest }))
      ]

  -- A request that was served: its packet, and what the stream is then.
  pub record Requested (s s' : Stream) : Type 0 where
    pub request : RawPacket
    pub rest : List ℕ
    pub text : List ℕ
    pub read : read_packet z default_max_packet_size s.incoming ≡ ok (request, rest)
    pub id : request.id ≡ 0x00
    pub made : json (status_response config version) ≡ some text
    pub incoming : s'.incoming ≡ rest
    pub written : s'.written ≡ s.written ++ frame (response_packet z json text)

  serve_request-ok :
      (request : RawPacket) (rest : List ℕ) (s s' : Stream)
      → read_packet z default_max_packet_size s.incoming ≡ ok (request, rest)
      → serve_request z json config version request (record s { incoming = rest }) ≡ (ok tt, s')
      → Requested s s'
  unfolding serve_request to_json
  serve_request-ok request rest s s' r e =
      elim (Option-cases (json (status_response config version))) [
        | inl none_made ↦ absurd (ground arith)
        | inr (text, made) ↦
            let sent = send_lem z (response_packet z json text) (record s { incoming = rest }) in
            record {
              request = request;
              rest = rest;
              text = text;
              read = r;
              id = ground arith;
              made = made;
              incoming = ground (arith, sent);
              written = ground (arith, sent);
            }
      ]

  serve_request-err :
      (request : RawPacket) (x : ProxyError) (s s' : Stream)
      → serve_request z json config version request s ≡ (err x, s')
      → s' ≡ s
  unfolding serve_request to_json
  serve_request-err request x s s' e = elim (Option-cases (json (status_response config version))) [
    | inl none_made ↦ ground arith
    | inr (text, made) ↦ ground (arith, send_lem z (response_packet z json text) s)
  ]

  -- The ways in which the handling of a ping ends.
  pub data Served (s s' : Stream) : Result (Unit {0}) → Type 0 where
    no_request : (x : ProxyError) → s'.written ≡ s.written → Served s s' (err x)
    bad_ping :
        (x : ProxyError) (m : Stream) → Requested s m → s'.written ≡ m.written → Served s s' (err x)
    no_ping : (m : Stream) → Requested s m → s'.written ≡ m.written → Served s s' (ok tt)
    ping : (m : Stream) → Requested s m → Echoed m s' → Served s s' (ok tt)

  -- The answer and the state behind the request.
  abbrev requested : RawPacket → List ℕ → Stream → Result (Unit {0}) × Stream
  requested request rest s =
      serve_request z json config version request (record s { incoming = rest })

  served :
      (late_ping : Bool) (s s' : Stream) (answer : Result (Unit {0}))
      → handle_status_with_version z json config version false late_ping s ≡ (answer, s')
      → Served s s' answer
  unfolding handle_status_with_version receive
  served late_ping s s' (ok _) e =
      elim (Result-cases (read_packet z default_max_packet_size s.incoming)) [
        | inr (y, r) ↦ absurd (ground arith)
        | inl ((request, rest), r) ↦ elim (Result-cases (requested request rest s).0) [
          | inr (y, q) ↦ absurd (ground arith)
          | inl (done, q) ↦
              let m : Stream = (requested request rest s).1 in
              let first =
                serve_request-ok request rest s m r (ap (λ (a : Result (Unit {0})). (a, m)) q) in
              elim (serve_ping-ok late_ping m s' (ground arith)) [
                | inl same ↦ no_ping m first same
                | inr echo ↦ ping m first echo
              ]
        ]
      ]
  served late_ping s s' (err x) e =
      elim (Result-cases (read_packet z default_max_packet_size s.incoming)) [
        | inr (y, r) ↦ no_request x (ground arith)
        | inl ((request, rest), r) ↦ elim (Result-cases (requested request rest s).0) [
          | inr (y, q) ↦
              let m : Stream = (requested request rest s).1 in
              let same =
                serve_request-err request y (record s { incoming = rest }) m
                  (ap (λ (a : Result (Unit {0})). (a, m)) q) in
              no_request x (ground arith)
          | inl (done, q) ↦
              let m : Stream = (requested request rest s).1 in
              let first =
                serve_request-ok request rest s m r (ap (λ (a : Result (Unit {0})). (a, m)) q) in
              bad_ping x m first (serve_ping-err late_ping x m s' (ground arith))
        ]
      ]

  timed_out_lem :
      (late_ping : Bool) (s : Stream)
      → Served s
          (handle_status_with_version z json config version true late_ping s).1
          (handle_status_with_version z json config version true late_ping s).0
  unfolding handle_status_with_version
  timed_out_lem late_ping s = no_request _ refl

  -- Every way in which the handling of a ping ends. A client is sent the status only for a request
  -- with the id 0, and behind it at most one more packet: the echo of a ping with the id 1 and at
  -- least 8 bytes, with the very same payload. A handling that fails echoes nothing.
  pub handle_status_lem :
      (late_request late_ping : Bool) (s : Stream)
      → Served s
          (handle_status_with_version z json config version late_request late_ping s).1
          (handle_status_with_version z json config version late_request late_ping s).0
  handle_status_lem true late_ping s = timed_out_lem late_ping s
  handle_status_lem false late_ping s =
      served late_ping s (handle_status_with_version z json config version false late_ping s).1
        (handle_status_with_version z json config version false late_ping s).0 refl
