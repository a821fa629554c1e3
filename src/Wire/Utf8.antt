-- ===== src/Wire/Utf8.antt =====
-- The test of Rust's `std::str::from_utf8`: well-formed UTF-8 without surrogates and overlong
-- forms, up to U+10FFFF.
use frame_mc.Prelude.{ℕ, zero, suc, ◌<◌, ◌≡◌, arith, List, [], ◌∷◌, Bool, true, false, ◌&&◌}
use frame_mc.Prelude.{Option, none, some, leb, ltb, if◌then◌else◌, All, refl}

-- What a first byte asks for: how many continuation bytes, and the range of the next one.
unfoldable pub lead : ℕ → Option (ℕ × ℕ × ℕ)
lead b =
    if ltb b 0x80
    then some (0, 0x80, 0xbf)
    else if ltb b 0xc2
    then none
    else if ltb b 0xe0
    then some (1, 0x80, 0xbf)
    else if ltb b 0xe1
    then some (2, 0xa0, 0xbf)
    else if ltb b 0xed
    then some (2, 0x80, 0xbf)
    else if ltb b 0xee
    then some (2, 0x80, 0x9f)
    else if ltb b 0xf0
    then some (2, 0x80, 0xbf)
    else if ltb b 0xf1
    then some (3, 0x90, 0xbf)
    else if ltb b 0xf4
    then some (3, 0x80, 0xbf)
    else if ltb b 0xf5
    then some (3, 0x80, 0x8f)
    else none

unfoldable pub continues : ℕ → ℕ → ℕ → List ℕ → Bool
unfolding lead
continues zero low high [] = true
continues (suc more) low high [] = false
continues zero low high (b ∷ bs) = elim (lead b) [
  | none ↦ false
  | some (more, low', high') ↦ continues more low' high' bs
]
continues (suc more) low high (b ∷ bs) = (leb low b && leb b high) && continues more 0x80 0xbf bs

unfoldable pub is_utf8 : List ℕ → Bool
unfolding continues
is_utf8 bytes = continues 0 0x80 0xbf bytes

continues_ascii :
    (low high : ℕ) (bs : List ℕ) → All (λ b. b < 128) bs → continues 0 low high bs ≡ true
unfolding continues lead
continues_ascii low high [] h = refl
continues_ascii low high (b ∷ bs) h = ground (arith, continues_ascii 0x80 0xbf bs h.1)

-- ASCII bytes are UTF-8.
pub ascii-is_utf8 : (bs : List ℕ) → All (λ b. b < 128) bs → is_utf8 bs ≡ true
unfolding is_utf8
ascii-is_utf8 bs h = continues_ascii 0x80 0xbf bs h
