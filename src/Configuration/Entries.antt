-- ===== src/Configuration/Entries.antt =====
-- src/protocol/configuration.rs: a registry's data as a list of entries. The field `data` of an
-- entry is `contents` here.
use frame_mc.Prelude.{Bool, true, false, not, Option-cases, inl, inr}
use frame_mc.Prelude.{
  ℕ, zero, suc, ◌≡◌, arith, refl, List, [], ◌∷◌, ◌++◌, Option, none, some, length, All,
}
use frame_mc.Prelude.{◌==◌, IsShort, as_i32, is_negative}
use frame_mc.Error.{Result, ok, io, invalid_data}
use frame_mc.Varint.{decode_varint, encode_varint}
use frame_mc.Varint.RoundTrip.{decode_varint-encode_varint}
use frame_mc.Wire.{
  Reader, ◌>>=◌, ◌>>◌, pure, run, refuse_if, take_rest, get_u8, get_string, put_block, IsText,
}
use frame_mc.Wire.Laws.{get_string-put_string}
use frame_mc.Configuration.RegistryData.{RegistryDataPacket}

pub record RegistryEntry : Type 0 where
  pub entry_id : List ℕ
  pub contents : Option (List ℕ)

unfoldable pub put_contents : Option (List ℕ) → List ℕ
put_contents none = 0 ∷ []
put_contents (some contents) = 1 ∷ contents

unfoldable pub put_entries : List RegistryEntry → List ℕ
put_entries [] = []
put_entries (entry ∷ entries) =
    put_block entry.entry_id ++ (put_contents entry.contents ++ put_entries entries)

unfoldable pub from_entries : List ℕ → List RegistryEntry → RegistryDataPacket
from_entries registry_id entries = record {
  registry_id = registry_id;
  raw_data = encode_varint (as_i32 (length entries)) ++ put_entries entries;
}

-- The rest of a round of the loop, behind the entry's name and flag: an entry with data takes all
-- that is left and ends the loop.
unfoldable pub end_round : Bool → List ℕ → Reader (List RegistryEntry) → Reader (List RegistryEntry)
end_round true entry_id more = do
  contents ← take_rest
  pure (record { entry_id = entry_id; contents = some contents } ∷ [])
end_round false entry_id more = do
  entries ← more
  pure (record { entry_id = entry_id; contents = none } ∷ entries)

-- The loop `for _ in 0..count`.
unfoldable pub read_entries : ℕ → Reader (List RegistryEntry)
read_entries zero = pure []
read_entries (suc n) = do
  entry_id ← get_string
  has_data ← get_u8
  end_round (not (has_data == 0)) entry_id (read_entries n)

unfoldable pub read_list : Reader (List RegistryEntry)
read_list = do
  count ← decode_varint
  refuse_if (is_negative count) (io invalid_data)
  read_entries count

unfoldable pub try_decode_entries : RegistryDataPacket → Result (List RegistryEntry)
try_decode_entries packet = run read_list packet.raw_data

-- What the reader makes of written entries: it stops at the first with data, which swallows the
-- bytes of all entries behind it.
pub swallow : List RegistryEntry → List RegistryEntry
swallow [] = []
swallow (entry ∷ entries) = elim entry.contents [
  | none ↦ entry ∷ swallow entries
  | some contents ↦ record entry { contents = some (contents ++ put_entries entries) } ∷ []
]

read_entries-put_entries :
    (entries : List RegistryEntry)
    → All (λ e. IsText e.entry_id) entries
    → (rest : List ℕ) × (read_entries (length entries) (put_entries entries)
        ≡ ok (swallow entries, rest))
unfolding read_entries put_entries put_contents swallow end_round
read_entries-put_entries [] h = ([], refl)
read_entries-put_entries (entry ∷ entries) h =
    let (rest, ih) = read_entries-put_entries entries h.1 in
    elim (Option-cases entry.contents) [
      | inl e ↦ (
        rest,
        ground (
          arith,
          get_string-put_string entry.entry_id (put_contents entry.contents ++ put_entries entries)
              h.0,
        ),
      )
      | inr (contents, e) ↦ (
        [],
        ground (
          arith,
          get_string-put_string entry.entry_id (put_contents entry.contents ++ put_entries entries)
              h.0,
        ),
      )
    ]

-- Decoding a list that was written gives the entries up to the first with data, and that entry's
-- data are followed by the bytes of the entries behind it. The names are in UTF-8 and, like the
-- list, shorter than 2 ^ 31.
pub try_decode-from_entries :
    (registry_id : List ℕ) (entries : List RegistryEntry)
    → All (λ e. IsText e.entry_id) entries
    → IsShort (length entries)
    → try_decode_entries (from_entries registry_id entries) ≡ ok (swallow entries)
unfolding try_decode_entries from_entries read_list
try_decode-from_entries registry_id entries h short =
    let (rest, e) = read_entries-put_entries entries h in
    ground (
      arith,
      decode_varint-encode_varint (as_i32 (length entries)) (put_entries entries) (omega arith),
    )
