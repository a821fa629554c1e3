-- ===== src/Listener/Laws.antt =====
-- What a login that succeeds has proved about the player.
use frame_mc.Prelude.{ℕ, ◌≡◌, arith, List, [], Bool, true, some}
use frame_mc.Prelude.{length, Bool-cases, Option-cases, inl, inr, list_eq_sound, ap, sym, ◌∙◌}
use frame_mc.Error.{Result-cases, ok, io, timed_out}
use frame_mc.Codec.{Zlib, read_packet, default_max_packet_size}
use frame_mc.Stream.{Stream, receive, send, send_lem, within}
use frame_mc.Config.{ProxyConfig}
use frame_mc.Profile.{PlayerProfile}
use frame_mc.Prelude.{◌++◌, ◌==◌}
use frame_mc.Packet.{RawPacket, frame}
use frame_mc.Error.{ProxyError}
use frame_mc.Prelude.{false, Option-cases}
use frame_mc.Codec.{read_packet, default_max_packet_size}
use frame_mc.Stream.{send_lem}
use frame_mc.Login.Start.{LoginStartPacket}
use frame_mc.SessionServer.{
  Response, session_url, is_success, read_response, verify_session_with_url,
}
use frame_mc.Digest.{Digests, mojang_sha1_digest}
use frame_mc.Login.Start
use frame_mc.Login.Start.{LoginStartPacket, IsUsername, decode_start-IsUsername}
use frame_mc.Login.EncryptionRequest
use frame_mc.Login.EncryptionRequest.{generate}
use frame_mc.Login.EncryptionResponse
use frame_mc.Login.EncryptionResponse.{EncryptionResponsePacket}
use frame_mc.Script.Store.{eq_ignore_ascii_case}
use frame_mc.Listener.{
  Login, constant_time_eq, Authority, endpoint_url, open_response, reject, verify_player,
  authenticate, handle_login_auth,
}
use frame_mc.Listener.Compare.{constant_time_eq-list_eq}

-- What stands behind a login that was accepted on a stream.
pub record Verified (a : Authority) (d : Digests) (z : Zlib) (config : ProxyConfig) (v : ℕ)
    (before : Stream) (login : Login) (after : Stream) : Type 0 where
  -- The client's first packet is a LoginStart with a well-formed name.
  pub first : RawPacket
  pub behind : List ℕ
  pub start_read : read_packet z default_max_packet_size before.incoming ≡ ok (first, behind)
  pub start : LoginStartPacket
  pub start_decodes : Start.decode first ≡ ok start
  pub well_formed : IsUsername start.username
  -- Its second one answers the request with the token and a secret.
  pub second : RawPacket
  pub rest : List ℕ
  pub response_read : read_packet z default_max_packet_size behind ≡ ok (second, rest)
  pub response : EncryptionResponsePacket
  pub response_decodes : EncryptionResponse.decode second ≡ ok response
  pub token_decrypts : a.decrypt response.verify_token ≡ ok a.random_token
  pub secret : List ℕ
  pub secret_decrypts : a.decrypt response.shared_secret ≡ ok secret
  pub fits : length secret ≡ 16
  -- The session server answered for that name and secret with the profile, of the same name.
  pub answer : Response
  pub asked :
      a.http (
        session_url
          (endpoint_url config)
          start.username
          (mojang_sha1_digest d [] secret a.public_key_der))
      ≡ some answer
  pub success : is_success answer.status ≡ true
  pub content : (answer.status == 204) ≡ false
  pub profile : answer.json ≡ some login.1
  pub same_name : eq_ignore_ascii_case login.1.name start.username ≡ true
  -- The stream goes on encrypted, and in the clear nothing but the request was written.
  pub encrypts : login.0 ≡ some secret
  pub stream : after ≡ record {
    incoming = rest;
    written =
        before.written
        ++ frame
            (EncryptionRequest.encode_with_version (generate a.public_key_der a.random_token) v);
  }

module _ (z : Zlib) where
  -- A packet that was received is the next one that the stream holds.
  received :
      (late : Bool) (e : ProxyError) (s : Stream) (packet : RawPacket)
      → (within late e (receive z) s).0 ≡ ok packet
      → (rest : List ℕ) × (read_packet z default_max_packet_size s.incoming ≡ ok (packet, rest))
        × ((within late e (receive z) s).1 ≡ record s { incoming = rest })
  unfolding receive
  received true e s packet h = absurd (ground arith)
  received false e s packet h =
      elim (Result-cases (read_packet z default_max_packet_size s.incoming)) [
        | inr (x, r) ↦ absurd (ground arith)
        | inl ((p, rest), r) ↦ (rest, ground arith, ground arith)
      ]

module _ (a : Authority) where
  open_response_lem :
      (enc_resp : EncryptionResponsePacket) (secret : List ℕ)
      → open_response a enc_resp ≡ ok secret
      → (a.decrypt enc_resp.shared_secret ≡ ok secret)
        × (a.decrypt enc_resp.verify_token ≡ ok a.random_token)
        × (length secret ≡ 16)
  unfolding open_response
  open_response_lem enc_resp secret e = elim (Result-cases (a.decrypt enc_resp.shared_secret)) [
    | inr (x, h) ↦ absurd (ground arith)
    | inl (sec, h) ↦ elim (Result-cases (a.decrypt enc_resp.verify_token)) [
      | inr (x, t) ↦ absurd (ground arith)
      | inl (token, t) ↦ elim (Bool-cases (constant_time_eq token a.random_token)) [
        | inr c ↦ absurd (ground arith)
        | inl c ↦
            let same : sec ≡ secret = ground arith in
            let token_same =
              list_eq_sound token a.random_token
                (sym (constant_time_eq-list_eq token a.random_token) ∙ c) in
            (rw (← same) h, rw (← token_same) t, rw (← same) (ground arith))
      ]
    ]
  ]

  module _ (d : Digests) (z : Zlib) (config : ProxyConfig) (client_ip : List ℕ) where
    verify_player_lem :
        (username secret : List ℕ) (profile : PlayerProfile) (s : Stream)
        → (verify_player a d z config client_ip username secret s).0 ≡ ok profile
        → (answer : Response) × (a.http (
              session_url
                (endpoint_url config)
                username
                (mojang_sha1_digest d [] secret a.public_key_der))
            ≡ some answer)
          × (is_success answer.status ≡ true)
          × ((answer.status == 204) ≡ false)
          × (answer.json ≡ some profile)
          × (eq_ignore_ascii_case profile.name username ≡ true)
          × ((verify_player a d z config client_ip username secret s).1 ≡ s)
    unfolding verify_player reject verify_session_with_url read_response
    verify_player_lem username secret profile s e =
        elim (Option-cases (
          a.http (
            session_url (endpoint_url config) username
              (mojang_sha1_digest d [] secret a.public_key_der)))) [
                | inl n ↦ absurd (ground arith)
                | inr (answer, g) ↦ elim (Option-cases answer.json) [
                  | inl n ↦ absurd (ground arith)
                  | inr (p, j) ↦ elim (Bool-cases (eq_ignore_ascii_case p.name username)) [
                    | inr n ↦ absurd (ground arith)
                    | inl n ↦
                        let same : p ≡ profile = ground arith in
                        (
                          answer,
                          g,
                          ground arith,
                          ground arith,
                          rw (← same) j,
                          rw (← same) n,
                          ground arith,
                        )
                  ]
                ]
              ]

    -- The exchange behind a LoginStart that was read.
    authenticate_lem :
        (v : ℕ) (late : Bool) (before : Stream) (first : RawPacket) (behind : List ℕ)
        (start : LoginStartPacket) (login : Login)
        → read_packet z default_max_packet_size before.incoming ≡ ok (first, behind)
        → Start.decode first ≡ ok start
        → (authenticate a d z config client_ip v late start.username
            (record before { incoming = behind })).0
          ≡ ok login
        → Verified a d z config v before login
            (authenticate a d z config client_ip v late start.username
              (record before { incoming = behind })).1
    unfolding authenticate
    authenticate_lem v late before first behind start login start_read start_decodes e =
        let request =
          EncryptionRequest.encode_with_version (generate a.public_key_der a.random_token) v in
        let s : Stream = record { incoming = behind; written = before.written ++ frame request } in
        let sent : send z request (record before { incoming = behind }) ≡ (ok tt, s) =
          send_lem z request (record before { incoming = behind }) in
        let q = within late (io timed_out) (receive z) s in
        elim (Result-cases q.0) [
          | inr (x, l) ↦ absurd (ground arith)
          | inl (second, l) ↦ elim (Result-cases (EncryptionResponse.decode second)) [
            | inr (x, n) ↦ absurd (ground arith)
            | inl (response, n) ↦ elim (Result-cases (open_response a response)) [
              | inr (x, o) ↦ absurd (ground arith)
              | inl (secret, o) ↦
                  let p = verify_player a d z config client_ip start.username secret q.1 in
                  elim (Result-cases p.0) [
                    | inr (x, f) ↦ absurd (ground arith)
                    | inl (profile, f) ↦
                        let same : (some secret, profile) ≡ login = ground arith in
                        let two = received z late (io timed_out) s second l in
                        let ending : (authenticate a d z config client_ip v late start.username
                              (record before { incoming = behind })).1
                            ≡ p.1 =
                          ground arith in
                        let opened = open_response_lem response secret o in
                        let known = verify_player_lem start.username secret profile q.1 f in
                        let name = ap (λ (l : Login). l.1) same in
                        record {
                          first = first;
                          behind = behind;
                          start_read = start_read;
                          start = start;
                          start_decodes = start_decodes;
                          well_formed = (decode_start-IsUsername first start start_decodes).0;
                          second = second;
                          rest = two.0;
                          response_read = two.1;
                          response = response;
                          response_decodes = n;
                          token_decrypts = opened.1;
                          secret = secret;
                          secret_decrypts = opened.0;
                          fits = opened.2;
                          answer = known.0;
                          asked = known.1;
                          success = known.2;
                          content = known.3;
                          profile = known.4 ∙ ap (λ (x : PlayerProfile). some x) name;
                          same_name = rw (← name) known.5;
                          encrypts = sym (ap (λ (l : Login). l.0) same);
                          stream = ending ∙ (known.6 ∙ two.2);
                        }
                  ]
            ]
          ]
        ]

    -- In the online mode a login is accepted only for a client whose first packet is a LoginStart with
    -- a well-formed name, whose second packet returns the token of the request and a secret of 16
    -- bytes, both encrypted for the proxy's key, and for which the session server has answered with
    -- success and content to the question for this name and the hash of this secret; the profile is
    -- the one of that answer, and has the name up to the case. Nothing but the request was written,
    -- and the stream goes on encrypted under the secret.
    pub handle_login_auth-Verified :
        (v : ℕ) (start_late response_late : Bool) (s : Stream) (login : Login)
        → config.online_mode ≡ true
        → (handle_login_auth a d z config client_ip v start_late response_late s).0 ≡ ok login
        → Verified a d z config v s login
            (handle_login_auth a d z config client_ip v start_late response_late s).1
    unfolding handle_login_auth
    handle_login_auth-Verified v start_late response_late s login online e =
        let r = within start_late (io timed_out) (receive z) s in
        elim (Result-cases r.0) [
          | inr (x, h) ↦ absurd (ground arith)
          | inl (first, h) ↦ elim (Result-cases (Start.decode first)) [
            | inr (x, g) ↦ absurd (ground arith)
            | inl (start, g) ↦
                let one = received z start_late (io timed_out) s first h in
                let opened : handle_login_auth a d z config client_ip v start_late response_late s
                    ≡ authenticate a d z config client_ip v response_late start.username
                        (record s { incoming = one.0 }) =
                  ground arith in
                rw opened (
                  authenticate_lem v response_late s first one.0 start login one.1 g
                    (rw opened at e))
          ]
        ]
