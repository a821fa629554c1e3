-- ===== src/Digest/Examples.antt =====
-- A digest with a hash in the upper half.
use frame_mc.Prelude.{
  ℕ, suc, ◌+◌, ◌*◌, ◌/◌, ◌%◌, ◌^◌, ◌<◌, ◌≤◌, ◌≡◌, arith, refl, ap, ◌∙◌, List, [], ◌∷◌, true, leb,
  if◌then◌else◌, length, All, IsByte,
}
use frame_mc.Digest.{
  Digests, mojang_sha1_digest, signed_hex, negate, trim_zeros, or_zero, is_negative_hash,
}
use frame_mc.Digest.Signed.{
  IsDigests, big_endian, hex_value, digit_value, read_signed, mojang_sha1_digest_lem,
}
use frame_mc.Wire.{ascii}

abbrev digit : ℕ → ℕ
digit n = if leb n 9 then n + 48 else n + 87

abbrev hex : List ℕ → List ℕ
hex [] = []
hex (b ∷ bs) = digit (b / 16 % 16) ∷ digit (b % 16) ∷ hex bs

digit_lem : (n : ℕ) → n < 16 → digit_value (digit n) ≡ n
digit_lem n h = ground arith

pow_16 : (n : ℕ) → 16 ^ suc n ≡ 16 * 16 ^ n
pow_16 n = omega arith

pow_256 : (n : ℕ) → 256 ^ suc n ≡ 256 * 256 ^ n
pow_256 n = omega arith

power_hex : (bs : List ℕ) → 16 ^ length (hex bs) ≡ 256 ^ length bs
power_hex [] = refl
power_hex (b ∷ bs) = omega (
  arith,
  power_hex bs,
  pow_16 (suc (length (hex bs))),
  pow_16 (length (hex bs)),
  pow_256 (length bs),
)

two_digits_of : (h l p : ℕ) → h * (16 * p) + l * p ≡ (h * 16 + l) * p
two_digits_of h l p = grind arith

two_digits : (b p : ℕ) → b < 256 → b / 16 % 16 * (16 * p) + b % 16 * p ≡ b * p
two_digits b p h =
    let high : b / 16 % 16 * 16 + b % 16 ≡ b = omega arith in
    rw high at (two_digits_of (b / 16 % 16) (b % 16) p)

hex-value : (bs : List ℕ) → All IsByte bs → hex_value (hex bs) ≡ big_endian bs
hex-value [] h = refl
hex-value (b ∷ bs) h = omega (
  arith,
  hex-value bs h.1,
  power_hex bs,
  ap (λ (v : ℕ). v * 16 ^ suc (length (hex bs))) (digit_lem (b / 16 % 16) (omega arith)),
  ap (λ (v : ℕ). v * 16 ^ length (hex bs)) (digit_lem (b % 16) (omega arith)),
  ap (λ (v : ℕ). b / 16 % 16 * v)
      (pow_16 (length (hex bs)) ∙ ap (λ (v : ℕ). 16 * v) (power_hex bs)),
  ap (λ (v : ℕ). b % 16 * v) (power_hex bs),
  two_digits b (256 ^ length bs) h.0,
)

hex-digits : (bs : List ℕ) → All (λ ch. b'0' ≤ ch) (hex bs)
hex-digits [] = tt
hex-digits (b ∷ bs) = (ground arith, (ground arith, hex-digits bs))

abbrev hash : List ℕ
hash =
    255 ∷ 255 ∷ 255 ∷ 255 ∷ 255 ∷ 255 ∷ 255 ∷ 255 ∷ 255 ∷ 255 ∷ 255 ∷ 255 ∷ 255 ∷ 255 ∷ 255 ∷ 255
    ∷ 255 ∷ 255 ∷ 254 ∷ 0 ∷ []

abbrev digests : Digests
digests = record { sha1 = λ text. hash; hex_encode = hex; new_v3_oid = λ text. text }

digests-IsDigests : IsDigests digests
digests-IsDigests = record {
  sha1-length = λ text. refl;
  sha1-IsByte = λ text. omega arith;
  hex-value = hex-value;
  hex-digits = hex-digits;
}

mojang_sha1_digest_lem_example :
    read_signed (mojang_sha1_digest digests (ascii "") (1 ∷ []) (2 ∷ [])) ≡ (true, 512)
mojang_sha1_digest_lem_example =
    mojang_sha1_digest_lem digests digests-IsDigests (ascii "") (1 ∷ []) (2 ∷ []) hash refl

digest_text : mojang_sha1_digest digests (ascii "") (1 ∷ []) (2 ∷ []) ≡ ascii "-200"
unfolding mojang_sha1_digest signed_hex negate trim_zeros or_zero is_negative_hash
digest_text = refl
