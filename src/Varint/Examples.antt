-- ===== src/Varint/Examples.antt =====
-- Runs of the VarInt codecs.
use frame_mc.Prelude.{◌≡◌, refl, arith, [], ◌∷◌, ◌++◌}
use frame_mc.Error.{ok, err, varint_overflow}
use frame_mc.Varint.{decode_varint, encode_varint, read_loop}
use frame_mc.Varint.RoundTrip.{decode_varint-encode_varint}

decode_sixth_byte : decode_varint (0xff ∷ 0xff ∷ 0xff ∷ 0xff ∷ 0x1f ∷ []) ≡ err varint_overflow
unfolding decode_varint read_loop
decode_sixth_byte = refl

decode_varint-encode_varint_example :
    decode_varint (encode_varint 4294967295 ++ (7 ∷ [])) ≡ ok (4294967295, 7 ∷ [])
decode_varint-encode_varint_example = decode_varint-encode_varint 4294967295 (7 ∷ []) (omega arith)
