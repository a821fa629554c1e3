-- ===== src/Forwarding/Dispatch/Negotiation.antt =====
-- What a Velocity negotiation writes to the backend, and when.
use frame_mc.Prelude.{Bool-cases}
use frame_mc.Prelude.{Option-cases}
use frame_mc.Prelude.{ℕ, ◌≡◌, arith, List, ◌++◌, Bool, true, some}
use frame_mc.Prelude.{list_eq_sound, inl, inr}
use frame_mc.Error.{Result-cases, ProxyError, ok, err}
use frame_mc.Codec.{Zlib, read_packet, default_max_packet_size}
use frame_mc.Stream.{Stream, receive, send_lem}
use frame_mc.Packet.{RawPacket, frame}
use frame_mc.Profile.{PlayerProfile}
use frame_mc.Config.{BackendConfig, velocity_modern}
use frame_mc.Forwarding.PluginRequest
use frame_mc.Forwarding.PluginRequest.{LoginPluginRequestPacket}
use frame_mc.Forwarding.PluginResponse
use frame_mc.Forwarding.Payload.{Crates, velocity_forwarding_channel, create_velocity_response_data}
use frame_mc.Forwarding.Dispatch.{answer_request}
use frame_mc.Forwarding.Dispatch.{answer_backend, negotiate}

module _ (c : Crates) (z : Zlib) (backend : BackendConfig) (profile : PlayerProfile)
    (client_ip : List ℕ) where
  -- The response to a request, with the data that the payload module makes.
  abbrev pub response : LoginPluginRequestPacket → List ℕ → RawPacket
  response req contents =
      PluginResponse.encode
        (record { message_id = req.message_id; successful = true; contents = contents })

  answer_ok :
      (secret : List ℕ) (req : LoginPluginRequestPacket) (t t' : Stream)
      → answer_request c z secret profile client_ip req t ≡ (ok tt, t')
      → (contents : List ℕ) × (req.channel ≡ velocity_forwarding_channel)
        × (create_velocity_response_data c secret profile client_ip ≡ ok contents)
        × (t'.incoming ≡ t.incoming)
        × (t'.written ≡ t.written ++ frame (response req contents))
  unfolding answer_request
  answer_ok secret req t t' e =
      elim (Result-cases (create_velocity_response_data c secret profile client_ip)) [
        | inl (contents, d) ↦ (
          contents,
          ground (arith, list_eq_sound req.channel velocity_forwarding_channel),
          d,
          ground (arith, send_lem z (response req contents) t),
          ground (arith, send_lem z (response req contents) t),
        )
        | inr (x, d) ↦ absurd (ground arith)
      ]

  -- What a successful negotiation was: the backend asked on the channel of Velocity, and got the
  -- data for its request.
  pub record Negotiated (t t' : Stream) : Type 0 where
    pub secret : List ℕ
    pub packet : RawPacket
    pub rest : List ℕ
    pub req : LoginPluginRequestPacket
    pub contents : List ℕ
    pub configured : backend.forwarding_secret ≡ some secret
    pub read : read_packet z default_max_packet_size t.incoming ≡ ok (packet, rest)
    pub request : PluginRequest.decode packet ≡ ok req
    pub channel : req.channel ≡ velocity_forwarding_channel
    pub made : create_velocity_response_data c secret profile client_ip ≡ ok contents
    pub incoming : t'.incoming ≡ rest
    pub written : t'.written ≡ t.written ++ frame (response req contents)

  answer_backend_ok :
      (secret : List ℕ) (packet : RawPacket) (t t' : Stream)
      → answer_backend c z secret profile client_ip packet t ≡ (ok tt, t')
      → (req : LoginPluginRequestPacket) × (PluginRequest.decode packet ≡ ok req)
        × (answer_request c z secret profile client_ip req t ≡ (ok tt, t'))
  unfolding answer_backend
  answer_backend_ok secret packet t t' e = elim (Result-cases (PluginRequest.decode packet)) [
    | inl (req, d) ↦ (req, d, ground arith)
    | inr (x, d) ↦ absurd (ground arith)
  ]

  pub negotiate_ok :
      (late : Bool) (t t' : Stream)
      → negotiate c z velocity_modern backend profile client_ip late t ≡ (ok tt, t')
      → Negotiated t t'
  unfolding negotiate receive
  negotiate_ok late t t' e = elim (Option-cases backend.forwarding_secret) [
    | inl h ↦ absurd (ground arith)
    | inr (secret, h) ↦ elim (Result-cases (read_packet z default_max_packet_size t.incoming)) [
      | inr (x, r) ↦ absurd (ground arith)
      | inl ((packet, rest), r) ↦
          let t₁ : Stream = record t { incoming = rest } in
          let (req, d, a) = answer_backend_ok secret packet t₁ t' (ground arith) in
          let (contents, ch, made, same, more) = answer_ok secret req t₁ t' a in
          record {
            secret = secret;
            packet = packet;
            rest = rest;
            req = req;
            contents = contents;
            configured = h;
            read = r;
            request = d;
            channel = ch;
            made = made;
            incoming = same;
            written = more;
          }
    ]
  ]

  answer_request_err :
      (secret : List ℕ) (req : LoginPluginRequestPacket) (x : ProxyError) (t t' : Stream)
      → answer_request c z secret profile client_ip req t ≡ (err x, t')
      → t'.written ≡ t.written
  unfolding answer_request
  answer_request_err secret req x t t' e =
      elim (Result-cases (create_velocity_response_data c secret profile client_ip)) [
        | inl (contents, d) ↦ ground (arith, send_lem z (response req contents) t)
        | inr (y, d) ↦ ground arith
      ]

  answer_backend_err :
      (secret : List ℕ) (packet : RawPacket) (x : ProxyError) (t t' : Stream)
      → answer_backend c z secret profile client_ip packet t ≡ (err x, t')
      → t'.written ≡ t.written
  unfolding answer_backend
  answer_backend_err secret packet x t t' e = elim (Result-cases (PluginRequest.decode packet)) [
    | inl (req, d) ↦ ground (arith, answer_request_err secret req x t t')
    | inr (y, d) ↦ ground arith
  ]

  pub negotiate_err :
      (late : Bool) (x : ProxyError) (t t' : Stream)
      → negotiate c z velocity_modern backend profile client_ip late t ≡ (err x, t')
      → t'.written ≡ t.written
  unfolding negotiate receive
  negotiate_err late x t t' e = elim (Option-cases backend.forwarding_secret) [
    | inl h ↦ ground arith
    | inr (secret, h) ↦ elim (Result-cases (read_packet z default_max_packet_size t.incoming)) [
      | inr (y, r) ↦ elim (Bool-cases late) [ inl l ↦ ground arith | inr l ↦ ground arith ]
      | inl ((packet, rest), r) ↦
          ground (arith, answer_backend_err secret packet x (record t { incoming = rest }) t')
    ]
  ]
