-- ===== src/Forwarding/Dispatch/Laws.antt =====
-- What `dispatch_forwarding` writes to a backend, and when.
use frame_mc.Prelude.{sym}
use frame_mc.Prelude.{ap}
use frame_mc.Prelude.{◌∙◌}
use frame_mc.Prelude.{ℕ, ◌≡◌, ◌≢◌, arith, refl, List, ◌++◌, Bool}
use frame_mc.Prelude.{inl, inr, append_assoc}
use frame_mc.Error.{Result, Result-cases, ProxyError, ok, err}
use frame_mc.Codec.{Zlib}
use frame_mc.Stream.{Stream, send_lem}
use frame_mc.Packet.{frame}
use frame_mc.Profile.{PlayerProfile}
use frame_mc.Config.{BackendConfig, ForwardingMode, no_forwarding, legacy_bungee, velocity_modern}
use frame_mc.Forwarding.Payload.{Crates}
use frame_mc.Forwarding.Dispatch.{handshake_addr, handshake_packet, login_start_packet}
use frame_mc.Forwarding.Dispatch.{negotiate, dispatch_forwarding}
use frame_mc.Forwarding.Dispatch.Negotiation.{Negotiated, negotiate_ok, negotiate_err}

module _ (c : Crates) (z : Zlib) (backend : BackendConfig) (profile : PlayerProfile) where
  module _ (client_ip : List ℕ) (version : ℕ) (late : Bool) (s : Stream) where
    -- The two packets that every mode sends, for an address.
    abbrev pub opening : List ℕ → List ℕ
    opening addr =
        frame (handshake_packet c z backend version addr) ++ frame (login_start_packet c z profile)

    abbrev pub opened : List ℕ → Stream
    opened addr = record s { written = s.written ++ opening addr }

    after_opening :
        (addr : List ℕ)
        → handshake_addr c z backend.forwarding_mode backend profile client_ip ≡ ok addr
        → dispatch_forwarding c z backend profile client_ip version late s
          ≡ negotiate c z backend.forwarding_mode backend profile client_ip late (opened addr)
    unfolding dispatch_forwarding
    after_opening addr e =
        let first : Stream = record s {
          written = s.written ++ frame (handshake_packet c z backend version addr);
        } in
        ground (
          arith,
          send_lem z (handshake_packet c z backend version addr) s,
          send_lem z (login_start_packet c z profile) first,
          append_assoc s.written (frame (handshake_packet c z backend version addr))
              (frame (login_start_packet c z profile)),
        )

    address_failed :
        (x : ProxyError)
        → handshake_addr c z backend.forwarding_mode backend profile client_ip ≡ err x
        → dispatch_forwarding c z backend profile client_ip version late s ≡ (err x, s)
    unfolding dispatch_forwarding
    address_failed x e = ground arith

    plain_mode :
        (mode : ForwardingMode) (t : Stream)
        → mode ≢ velocity_modern
        → negotiate c z mode backend profile client_ip late t ≡ (ok tt, t)
    unfolding negotiate
    plain_mode no_forwarding t h = refl
    plain_mode legacy_bungee t h = refl
    plain_mode velocity_modern t h = absurd (h refl)

    -- Without Velocity forwarding the backend gets the two opening packets, and nothing is read
    -- from it; if the address cannot be made, nothing is written either.
    pub dispatch_plain :
        backend.forwarding_mode ≢ velocity_modern
        → dispatch_forwarding c z backend profile client_ip version late s
          ≡ elim (handshake_addr c z backend.forwarding_mode backend profile client_ip)
              as (λ _. Result (Unit {0}) × Stream) [
                | ok addr ↦ (ok tt, opened addr)
                | err e ↦ (err e, s)
              ]
    dispatch_plain plain =
        elim (Result-cases (handshake_addr c z backend.forwarding_mode backend profile client_ip)) [
          | inl (addr, e) ↦
              rw e (after_opening addr e ∙ plain_mode backend.forwarding_mode (opened addr) plain)
          | inr (x, e) ↦ rw e (address_failed x e)
        ]

    velocity_address :
        backend.forwarding_mode ≡ velocity_modern
        → handshake_addr c z backend.forwarding_mode backend profile client_ip ≡ ok backend.address
    unfolding handshake_addr
    velocity_address h = rw h

    as_velocity :
        backend.forwarding_mode ≡ velocity_modern
        → dispatch_forwarding c z backend profile client_ip version late s
          ≡ negotiate c z velocity_modern backend profile client_ip late (opened backend.address)
    as_velocity h =
        after_opening backend.address (velocity_address h)
        ∙ ap
            (λ (m : ForwardingMode).
              negotiate c z m backend profile client_ip late (opened backend.address))
            h

    -- A Velocity negotiation that succeeds has read one packet, a request on the channel
    -- `velocity:player_info`, and has written the opening packets and the signed data for it.
    pub dispatch_velocity_ok :
        (s' : Stream)
        → backend.forwarding_mode ≡ velocity_modern
        → dispatch_forwarding c z backend profile client_ip version late s ≡ (ok tt, s')
        → Negotiated c z backend profile client_ip (opened backend.address) s'
    dispatch_velocity_ok s' h e =
        negotiate_ok c z backend profile client_ip late (opened backend.address) s'
          (sym (as_velocity h) ∙ e)

    -- A Velocity negotiation that fails, whatever the backend sent, has written the opening
    -- packets and nothing else: no signed data leave the proxy.
    pub dispatch_velocity_err :
        (x : ProxyError) (s' : Stream)
        → backend.forwarding_mode ≡ velocity_modern
        → dispatch_forwarding c z backend profile client_ip version late s ≡ (err x, s')
        → s'.written ≡ s.written ++ opening backend.address
    dispatch_velocity_err x s' h e =
        negotiate_err c z backend profile client_ip late x (opened backend.address) s'
          (sym (as_velocity h) ∙ e)
