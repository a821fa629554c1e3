-- ===== src/Wire/Long.antt =====
-- The fields of eight bytes: `get_i64` and `put_i64` of a cursor, over bit patterns.
use frame_mc.Prelude.{ℕ, ◌+◌, ◌*◌, ◌/◌, ◌%◌, ◌^◌, ◌≡◌, arith, List, [], ◌∷◌, ◌++◌, IsU64}
use frame_mc.Error.{ok, err, io, unexpected_eof}
use frame_mc.Wire.{Reader}

-- `cursor.get_i64()`, behind the test `cursor.remaining() < 8`.
unfoldable pub get_u64 : Reader ℕ
get_u64 (a ∷ b ∷ c ∷ d ∷ e ∷ f ∷ g ∷ h ∷ bs) = ok (
  a * 2 ^ 56 + b * 2 ^ 48 + c * 2 ^ 40 + d * 2 ^ 32 + e * 2 ^ 24 + f * 2 ^ 16 + g * 2 ^ 8 + h,
  bs,
)
get_u64 _ = err (io unexpected_eof)

-- `payload.put_i64(v)`
unfoldable pub put_u64 : ℕ → List ℕ
put_u64 v =
    v / 2 ^ 56 % 256
    ∷ v / 2 ^ 48 % 256
    ∷ v / 2 ^ 40 % 256
    ∷ v / 2 ^ 32 % 256
    ∷ v / 2 ^ 24 % 256
    ∷ v / 2 ^ 16 % 256
    ∷ v / 2 ^ 8 % 256
    ∷ v % 256
    ∷ []

pub get_u64-put_u64 : (v : ℕ) (rest : List ℕ) → IsU64 v → get_u64 (put_u64 v ++ rest) ≡ ok (v, rest)
unfolding get_u64 put_u64
get_u64-put_u64 v rest h = ground arith
