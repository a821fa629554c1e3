-- ===== src/Digest/Signed.antt =====
-- The text of a digest is its hash as a signed number in hexadecimal.
use frame_mc.Prelude.{
  ℕ, suc, ◌+◌, ◌-◌, ◌*◌, ◌%◌, ◌^◌, ◌<◌, ◌≤◌, ◌≡◌, arith, refl, List, [], ◌∷◌, ◌++◌, Bool, true,
  false, not, ◌==◌, ltb, leb, if◌then◌else◌, length, All, IsByte, Bool-cases, inl, inr,
}
use frame_mc.Prelude.Bits.{top_bit}
use frame_mc.Digest.{
  Digests, negate, trim_zeros, or_zero, is_negative_hash, signed_hex, mojang_sha1_digest,
}

-- A list of bytes as a number, the highest byte first.
abbrev pub big_endian : List ℕ → ℕ
big_endian [] = 0
big_endian (b ∷ bs) = b * 256 ^ length bs + big_endian bs

-- A text of digits as a number.
abbrev pub digit_value : ℕ → ℕ
digit_value ch = if leb ch b'9' then ch - b'0' else ch - 87

abbrev pub hex_value : List ℕ → ℕ
hex_value [] = 0
hex_value (ch ∷ chs) = digit_value ch * 16 ^ length chs + hex_value chs

-- The sign of a text, and its number.
abbrev pub read_signed : List ℕ → Bool × ℕ
read_signed [] = (false, 0)
read_signed (ch ∷ chs) = if ch == b'-' then (true, hex_value chs) else (false, hex_value (ch ∷ chs))

-- What the crates promise: a hash has 20 bytes, and hexadecimal digits stand for the bytes' number.
pub record IsDigests (d : Digests) : Type 0 where
  pub sha1-length : (text : List ℕ) → length (d.sha1 text) ≡ 20
  pub sha1-IsByte : (text : List ℕ) → All IsByte (d.sha1 text)
  pub hex-value :
      (bytes : List ℕ) → All IsByte bytes → hex_value (d.hex_encode bytes) ≡ big_endian bytes
  pub hex-digits : (bytes : List ℕ) → All (λ ch. b'0' ≤ ch) (d.hex_encode bytes)

power_suc : (n : ℕ) → 256 ^ suc n ≡ 256 * 256 ^ n
power_suc n = omega arith

times_sum : (a b k p : ℕ) → a + b ≡ k → a * p + b * p ≡ k * p
times_sum a b k p h = grind arith

times_le : (a k p : ℕ) → a ≤ k → a * p ≤ k * p
times_le a k p h = grind arith

big_endian-lt : (bs : List ℕ) → All IsByte bs → big_endian bs < 256 ^ length bs
big_endian-lt [] h = omega arith
big_endian-lt (b ∷ bs) h = omega (
  arith,
  big_endian-lt bs h.1,
  power_suc (length bs),
  times_le b 255 (256 ^ length bs) (omega (arith, h.0)),
)

length-negate : (bs : List ℕ) → length (negate bs).0 ≡ length bs
unfolding negate
length-negate [] = refl
length-negate (b ∷ bs) = ground (arith, length-negate bs)

negate-IsByte : (bs : List ℕ) → All IsByte bs → All IsByte (negate bs).0
unfolding negate
negate-IsByte [] h = tt
negate-IsByte (b ∷ bs) h = ground (arith, negate-IsByte bs h.1)

-- The sum of a number and what the loop makes of it: a power of 256, but for 0.
pub negate_lem :
    (bs : List ℕ)
    → All IsByte bs
    → big_endian (negate bs).0 + big_endian bs ≡ (if (negate bs).1 then 0 else 256 ^ length bs)
unfolding negate
negate_lem [] h = refl
negate_lem (b ∷ bs) h =
    let p : ℕ = 256 ^ length bs in
    let hb : b < 256 = h.0 in
    elim (Bool-cases (negate bs).1) [
      | inl c ↦ ground (
        arith,
        negate_lem bs h.1,
        length-negate bs,
        power_suc (length bs),
        times_sum ((255 - b + 1) % 256) b (if b == 0 then 0 else 256) p (ground arith),
      )
      | inr c ↦ ground (
        arith,
        negate_lem bs h.1,
        length-negate bs,
        power_suc (length bs),
        times_sum (255 - b) b 255 p (omega arith),
      )
    ]

-- Zeros in front do not count.
hex_value-trim_zeros : (text : List ℕ) → hex_value (or_zero (trim_zeros text)) ≡ hex_value text
unfolding trim_zeros or_zero
hex_value-trim_zeros [] = refl
hex_value-trim_zeros (ch ∷ chs) = ground (arith, hex_value-trim_zeros chs)

-- A text of digits has no sign in front.
read_digits :
    (text : List ℕ)
    → All (λ ch. b'0' ≤ ch) text
    → read_signed (or_zero (trim_zeros text)) ≡ (false, hex_value text)
unfolding trim_zeros or_zero
read_digits [] h = refl
read_digits (ch ∷ chs) h = ground (arith, read_digits chs h.1)

-- The top bit of a hash says that its number is in the upper half.
negative_lem :
    (hash : List ℕ)
    → length hash ≡ 20
    → All IsByte hash
    → is_negative_hash hash ≡ not (ltb (big_endian hash) (2 ^ 159))
unfolding is_negative_hash
negative_lem [] e h = absurd (omega arith)
negative_lem (b ∷ bs) e h =
    let n : length bs ≡ 19 = omega arith in
    let p : 256 ^ length bs ≡ 2 ^ 152 = rw n in
    ground (arith, top_bit b h.0, big_endian-lt bs h.1, p)

full_power : (hash : List ℕ) → length hash ≡ 20 → 256 ^ length hash ≡ 2 ^ 160
full_power hash e = rw e

module _ (d : Digests) (law : IsDigests d) where
  signed_hex_lem :
      (hash : List ℕ)
      → length hash ≡ 20
      → All IsByte hash
      → read_signed (signed_hex d hash) ≡ (
          if ltb (big_endian hash) (2 ^ 159)
          then (false, big_endian hash)
          else (true, 2 ^ 160 - big_endian hash))
  unfolding signed_hex
  signed_hex_lem hash e h = elim (Bool-cases (ltb (big_endian hash) (2 ^ 159))) [
    | inl low ↦ ground (
      arith,
      negative_lem hash e h,
      read_digits (d.hex_encode hash) (law.hex-digits hash),
      law.hex-value hash h,
    )
    | inr high ↦ ground (
      arith,
      negative_lem hash e h,
      hex_value-trim_zeros (d.hex_encode (negate hash).0),
      law.hex-value (negate hash).0 (negate-IsByte hash h),
      negate_lem hash h,
      full_power hash e,
    )
  ]

  -- The digest is read back as the hash taken for a signed number of 160 bits in two's
  -- complement: the number itself in the lower half, and what is missing to 2 ^ 160, behind a
  -- minus sign, in the upper half. The hash function gives 20 bytes, and the hexadecimal digits
  -- of bytes stand for their number.
  pub mojang_sha1_digest_lem :
      (server_id shared_secret public_key_der hash : List ℕ)
      → d.sha1 (server_id ++ (shared_secret ++ public_key_der)) ≡ hash
      → read_signed (mojang_sha1_digest d server_id shared_secret public_key_der) ≡ (
          if ltb (big_endian hash) (2 ^ 159)
          then (false, big_endian hash)
          else (true, 2 ^ 160 - big_endian hash))
  unfolding mojang_sha1_digest
  mojang_sha1_digest_lem server_id shared_secret public_key_der hash e =
      let text : List ℕ = server_id ++ (shared_secret ++ public_key_der) in
      rw e (signed_hex_lem hash (rw e at (law.sha1-length text)) (rw e at (law.sha1-IsByte text)))
