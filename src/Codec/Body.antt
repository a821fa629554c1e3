-- ===== src/Codec/Body.antt =====
-- Reading a body in chunks is reading it at once.
use frame_mc.Prelude.{
  ℕ, zero, suc, ◌+◌, ◌-◌, ◌<◌, ◌≡◌, arith, List, [], ◌∷◌, ◌++◌, length, take, drop,
}
use frame_mc.Prelude.{min, ltb, if◌then◌else◌, refl, append-nil, append_assoc, length-drop, ap}
use frame_mc.Prelude.{drop_more}
use frame_mc.Error.{ok, err, io, unexpected_eof}
use frame_mc.Wire.{take_bytes}
use frame_mc.Codec.{chunk_limit, read_body}
use mathlib.Core.WellFounded.{Acc}
use native.Mathlib.Decide.{dec_lt}

take_more : (m k n : ℕ) (xs : List ℕ) → n ≡ m + k → take m xs ++ take k (drop m xs) ≡ take n xs
take_more zero k n xs h = rw (let e : n ≡ k = omega arith in e)
take_more (suc m) k zero xs h = absurd (omega arith)
take_more (suc m) zero (suc n) [] h = refl
take_more (suc m) (suc k) (suc n) [] h = refl
take_more (suc m) k (suc n) (x ∷ xs) h =
    ap (λ (l : List ℕ). x ∷ l) (take_more m k n xs (omega arith))

-- Reading a body in chunks takes exactly its bytes off the stream and adds them to those already
-- read, or gives an `UnexpectedEof`, exactly if the stream is shorter than the body.
pub read_body-eq :
    (n : ℕ) (a : Acc ◌<◌ n) (body reader : List ℕ)
    → read_body n a body reader ≡ (
        if ltb (length reader) n
        then err (io unexpected_eof)
        else ok (body ++ take n reader, drop n reader))
unfolding read_body take_bytes
read_body-eq n (Acc.intro _ smaller) body reader = elim (dec_lt 0 n) [
  | no empty ↦ let e : n ≡ 0 = omega arith in grind (arith, append-nil body)
  | yes more ↦ grind (
    arith,
    λ (p : n - min n chunk_limit < n).
        read_body-eq (n - min n chunk_limit) (smaller (n - min n chunk_limit) p)
          (body ++ take (min n chunk_limit) reader) (drop (min n chunk_limit) reader),
    length-drop (min n chunk_limit) reader,
    append_assoc body (take (min n chunk_limit) reader)
        (take (n - min n chunk_limit) (drop (min n chunk_limit) reader)),
    take_more (min n chunk_limit) (n - min n chunk_limit) n reader (omega arith),
    drop_more (min n chunk_limit) (n - min n chunk_limit) n reader (omega arith),
  )
]
