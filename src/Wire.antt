-- ===== src/Wire.antt =====
-- The reading and writing that all packet codecs of src/protocol share: a cursor over a payload,
-- length-prefixed byte arrays and strings, and fields of a fixed size. A `String` is the list of
-- its UTF-8 bytes.
pub mod Utf8
pub mod Laws
pub mod Long
use frame_mc.Prelude.{ℕ, ◌+◌, ◌*◌, ◌/◌, ◌%◌, ◌<◌, ◌≡◌, List, [], ◌∷◌, ◌++◌, Bool, true, false}
use frame_mc.Prelude.{
  length, take, drop, ltb, ◌==◌, not, if◌then◌else◌, is_negative, as_usize, as_i32,
}
use frame_mc.Prelude.{IsShort, IsByte, All}
use frame_mc.Error.{Result, ProxyError, ok, err, io, unexpected_eof, invalid_data}
use frame_mc.Varint.{decode_varint, encode_varint}
use Utf8.{is_utf8}
use Prim.Native.String.{String}
use Prim.Native.Char.{code}

-- A step that reads from a cursor and may fail.
abbrev pub Reader {ℓ} : Type ℓ → Type ℓ
Reader A = List ℕ → Result (A × List ℕ)

infixl 5 ◌>>=◌ ◌>>◌
abbrev pub ◌>>=◌ {ℓ κ} : {A : Type ℓ} {B : Type κ} → Reader A → (A → Reader B) → Reader B
◌>>=◌ m f cursor = elim (m cursor) [ ok (a, rest) ↦ f a rest | err e ↦ err e ]

abbrev pub ◌>>◌ {ℓ} : {B : Type ℓ} → Reader (Unit {0}) → Reader B → Reader B
m >> k = m >>= λ _. k

abbrev pub pure {ℓ} : {A : Type ℓ} → A → Reader A
pure a cursor = ok (a, cursor)

abbrev pub fail {ℓ} : {A : Type ℓ} → ProxyError → Reader A
fail e cursor = err e

-- A decoder over a whole payload; the cursor is dropped at its end.
abbrev pub run {ℓ} : {A : Type ℓ} → Reader A → List ℕ → Result A
run m payload = elim (m payload) [ ok (a, rest) ↦ ok a | err e ↦ err e ]

-- `if condition { return Err(e) }`
abbrev pub refuse_if : Bool → ProxyError → Reader (Unit {0})
refuse_if true e cursor = err e
refuse_if false e cursor = ok (tt, cursor)

-- `cursor.has_remaining()`
abbrev pub has_remaining : Reader Bool
has_remaining [] = ok (false, [])
has_remaining (b ∷ bs) = ok (true, b ∷ bs)

-- `cursor[..n]` and `cursor.advance(n)`, behind the test `cursor.remaining() < n`.
unfoldable pub take_bytes : ℕ → Reader (List ℕ)
take_bytes n cursor =
    if ltb (length cursor) n then err (io unexpected_eof) else ok (take n cursor, drop n cursor)

-- All that the cursor still holds.
abbrev pub take_rest : Reader (List ℕ)
take_rest cursor = ok (cursor, [])

-- `cursor.get_u8()`, behind the test `cursor.has_remaining()`.
abbrev pub get_u8 : Reader ℕ
get_u8 [] = err (io unexpected_eof)
get_u8 (b ∷ bs) = ok (b, bs)

-- `cursor.get_u16()`, behind the test `cursor.remaining() < 2`.
abbrev pub get_u16 : Reader ℕ
get_u16 [] = err (io unexpected_eof)
get_u16 (a ∷ []) = err (io unexpected_eof)
get_u16 (a ∷ b ∷ bs) = ok (a * 256 + b, bs)

-- `std::str::from_utf8(bytes).map_err(…)?`
unfoldable pub from_utf8 : List ℕ → Reader (List ℕ)
from_utf8 bytes cursor = if is_utf8 bytes then ok (bytes, cursor) else err (io invalid_data)

-- A VarInt length and so many bytes.
unfoldable pub get_block : Reader (List ℕ)
get_block = do
  len ← decode_varint
  refuse_if (is_negative len) (io unexpected_eof)
  take_bytes (as_usize len)

-- The same, and the bytes are UTF-8.
unfoldable pub get_string : Reader (List ℕ)
get_string = do bytes ← get_block; from_utf8 bytes

-- `encode_varint(bytes.len() as i32, &mut payload); payload.put_slice(bytes)`
unfoldable pub put_block : List ℕ → List ℕ
put_block bytes = encode_varint (as_i32 (length bytes)) ++ bytes

-- `payload.put_u16(v)`
abbrev pub put_u16 : ℕ → List ℕ
put_u16 v = v / 256 % 256 ∷ v % 256 ∷ []

-- A Rust `String` that is short enough for an `i32` length.
pub record IsText (s : List ℕ) : Type 0 where
  pub utf8 : is_utf8 s ≡ true
  pub short : IsShort (length s)

-- The bytes of an ASCII literal.
abbrev pub ascii : String → List ℕ
ascii String.[] = []
ascii (String.◌∷◌ c s) = code c ∷ ascii s
