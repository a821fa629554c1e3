-- ===== src/Error.antt =====
-- src/error.rs: the errors as values. The text that an error carries is left out, its numbers and
-- the kind of an I/O error are kept.
use frame_mc.Prelude.{ℕ, ◌≡◌, refl, ◌⊎◌, inl, inr}

-- The `std::io::ErrorKind`s that the code makes or tests.
pub data IoKind : Type 0 where
  unexpected_eof invalid_data timed_out write_zero not_connected : IoKind

pub data ProxyError : Type 0 where
  io : IoKind → ProxyError
  varint_overflow : ProxyError
  packet_too_large : ℕ → ProxyError
  invalid_packet_id : ℕ → ProxyError
  invalid_connection_state : ℕ → ProxyError
  crypto_error authentication_failed backend_connection_failed : ProxyError
  script_error config_error : ProxyError

pub data Result {ℓ} (A : Type ℓ) : Type ℓ where
  ok : A → Result A
  err : ProxyError → Result A

pub Result-cases {ℓ} :
    {A : Type ℓ} (r : Result A) → ((a : A) × (r ≡ ok a)) ⊎ ((e : ProxyError) × (r ≡ err e))
Result-cases (ok a) = inl (a, refl)
Result-cases (err e) = inr (e, refl)
