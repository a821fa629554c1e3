-- ===== src/Wire/Laws.antt =====
-- What the writers of Wire write, its readers read back, and what a reader takes.
use frame_mc.Prelude.{inl, inr}
use frame_mc.Error.{Result-cases}
use frame_mc.Prelude.{ℕ, ◌≡◌, arith, List, [], ◌++◌, length, IsU16}
use frame_mc.Prelude.{IsShort, as_usize, append_assoc, take_front, drop_front, length-append}
use frame_mc.Prelude.{IsU32, append-nil, take-append-drop, length-take, true}
use frame_mc.Wire.Utf8.{is_utf8}
use frame_mc.Error.{ok}
use frame_mc.Varint.{decode_varint, encode_varint}
use frame_mc.Varint.RoundTrip.{decode_varint-encode_varint}
use frame_mc.Wire.{
  take_bytes, get_block, get_string, from_utf8, put_block, put_u16, get_u16, IsText,
}

pub take_bytes-append :
    (bs rest : List ℕ) (n : ℕ) → n ≡ length bs → take_bytes n (bs ++ rest) ≡ ok (bs, rest)
unfolding take_bytes
take_bytes-append bs rest n h =
    rw h (ground (arith, length-append bs rest, take_front bs rest, drop_front bs rest))

pub get_block-put_block :
    (bs rest : List ℕ) → IsShort (length bs) → get_block (put_block bs ++ rest) ≡ ok (bs, rest)
unfolding get_block put_block take_bytes
get_block-put_block bs rest h = rw (append_assoc) (
    ground (
      arith,
      decode_varint-encode_varint (length bs) (bs ++ rest) (omega arith),
      length-append bs rest,
      take_front bs rest,
      drop_front bs rest,
    ))

pub get_string-put_string :
    (s rest : List ℕ) → IsText s → get_string (put_block s ++ rest) ≡ ok (s, rest)
unfolding get_string from_utf8
get_string-put_string s rest h = ground (arith, get_block-put_block s rest h.short, h.utf8)

pub get_u16-put_u16 : (v : ℕ) (rest : List ℕ) → IsU16 v → get_u16 (put_u16 v ++ rest) ≡ ok (v, rest)
get_u16-put_u16 v rest h = ground arith

-- The same at the end of a payload.
pub decode_varint_end : (v : ℕ) → IsU32 v → decode_varint (encode_varint v) ≡ ok (v, [])
decode_varint_end v h = rw append-nil at (decode_varint-encode_varint v [] h)

pub get_block_end : (bs : List ℕ) → IsShort (length bs) → get_block (put_block bs) ≡ ok (bs, [])
get_block_end bs h = rw append-nil at (get_block-put_block bs [] h)

pub get_string_end : (s : List ℕ) → IsText s → get_string (put_block s) ≡ ok (s, [])
get_string_end s h = rw append-nil at (get_string-put_string s [] h)

pub from_utf8_lem : (s rest : List ℕ) → IsText s → from_utf8 s rest ≡ ok (s, rest)
unfolding from_utf8
from_utf8_lem s rest h = rw h.utf8

pub take_bytes_lem :
    (n : ℕ) (cursor bs rest : List ℕ)
    → take_bytes n cursor ≡ ok (bs, rest)
    → (length bs ≡ n) × (cursor ≡ bs ++ rest)
unfolding take_bytes
take_bytes_lem n cursor bs rest e = ground (arith, length-take n cursor, take-append-drop n cursor)

pub from_utf8_same :
    (bs cursor s rest : List ℕ)
    → from_utf8 bs cursor ≡ ok (s, rest)
    → (s ≡ bs) × (rest ≡ cursor) × (is_utf8 s ≡ true)
unfolding from_utf8
from_utf8_same bs cursor s rest e = ground arith

get_block-IsShort :
    (cursor bs rest : List ℕ) → get_block cursor ≡ ok (bs, rest) → IsShort (length bs)
unfolding get_block
get_block-IsShort cursor bs rest e = elim (Result-cases (decode_varint cursor)) [
  | inr (x, d) ↦ absurd (ground arith)
  | inl ((n, mid), d) ↦ elim (Result-cases (take_bytes (as_usize n) mid)) [
    | inr (x, t) ↦ absurd (ground arith)
    | inl ((cs, after), t) ↦ ground (arith, take_bytes_lem (as_usize n) mid cs after t)
  ]
]

-- What is read as a string is UTF-8, and short enough to be written again.
pub get_string-IsText : (cursor s rest : List ℕ) → get_string cursor ≡ ok (s, rest) → IsText s
unfolding get_string
get_string-IsText cursor s rest e = elim (Result-cases (get_block cursor)) [
  | inr (x, d) ↦ absurd (ground arith)
  | inl ((bs, mid), d) ↦
      ground (arith, get_block-IsShort cursor bs mid d, from_utf8_same bs mid s rest)
]
