-- ===== src/Packet/Channels.antt =====
-- Which packets the test for protected plugin channels catches.
use frame_mc.Prelude.{ℕ, ◌≡◌, arith, List, [], ◌∷◌, ◌++◌, ◌&&◌, map}
use frame_mc.Prelude.{length, ltb, leb, refl, length-append, take_front, append_assoc}
use frame_mc.Varint.RoundTrip.{decode_varint-encode_varint}
use frame_mc.Wire.{put_block, IsText}
use frame_mc.Packet.{new, lower, is_protected_name, is_protected_plugin_channel}

-- A payload that begins with a string, in UTF-8 and shorter than 2 ^ 31 bytes, is caught exactly
-- if the string has 1 to 128 bytes and is one of the four protected names, whatever the packet's
-- id and the bytes behind the name.
pub is_protected-put_block :
    (id : ℕ) (name extra : List ℕ)
    → IsText name
    → is_protected_plugin_channel (new id (put_block name ++ extra))
      ≡ (ltb 0 (length name) && leb (length name) 128 && is_protected_name name)
unfolding is_protected_plugin_channel put_block
is_protected-put_block id name extra h = rw append_assoc (
    ground (
      arith,
      decode_varint-encode_varint (length name) (name ++ extra) (omega arith),
      length-append name extra,
      take_front name extra,
      h.utf8,
      h.short,
    ))

lower_idem : (bs : List ℕ) → map lower (map lower bs) ≡ map lower bs
lower_idem [] = refl
lower_idem (b ∷ bs) = ground (arith, lower_idem bs)

-- The test does not see the case of a letter: a name and the same name in lower case are
-- protected alike.
pub is_protected_name-lower :
    (name : List ℕ) → is_protected_name (map lower name) ≡ is_protected_name name
unfolding is_protected_name
is_protected_name-lower name = rw lower_idem
