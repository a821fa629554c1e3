-- ===== src/Configuration/Examples.antt =====
-- Runs of the registry cache and of the list of entries.
use frame_mc.Prelude.{◌≡◌, arith, List, [], ◌∷◌, none, some, All}
use frame_mc.Error.{ok}
use frame_mc.Wire.{ascii, IsText}
use frame_mc.Wire.Utf8.{ascii-is_utf8}
use frame_mc.Configuration.RegistryData
use frame_mc.Configuration.RegistryData.{RegistryDataPacket, decode-encode_registry}
use frame_mc.Configuration.Entries.{
  RegistryEntry, swallow, try_decode_entries, from_entries, try_decode-from_entries,
}
use frame_mc.Configuration.Cache.{SessionRegistryCache, serialize_all, process_clientbound_packet}
use frame_mc.Configuration.Cache.Laws.{IsCache, IsCache-new, process_clientbound_packet-IsCache}
use frame_mc.Configuration.Cache.Replay.{cache_all, cache_all-serialize_all}

abbrev biome : RegistryDataPacket
biome = record { registry_id = ascii "minecraft:biome"; raw_data = 0 ∷ [] }

abbrev damage : RegistryDataPacket
damage = record { registry_id = ascii "minecraft:damage"; raw_data = 1 ∷ 2 ∷ [] }

abbrev empty : SessionRegistryCache
empty = record { registries = [] }

-- A cache after two packets, in another order than that of their names.
abbrev one : SessionRegistryCache
one = (process_clientbound_packet (RegistryData.encode damage) empty).1

abbrev two : SessionRegistryCache
two = (process_clientbound_packet (RegistryData.encode biome) one).1

one-IsCache : IsCache one
one-IsCache = process_clientbound_packet-IsCache (RegistryData.encode damage) empty IsCache-new

two-IsCache : IsCache two
two-IsCache = process_clientbound_packet-IsCache (RegistryData.encode biome) one one-IsCache

cache_all-serialize_all_example : cache_all (serialize_all two) empty ≡ two
cache_all-serialize_all_example = cache_all-serialize_all two two-IsCache

abbrev entries : List RegistryEntry
entries =
    record { entry_id = ascii "plains"; contents = none }
    ∷ record { entry_id = ascii "desert"; contents = some (10 ∷ 0 ∷ []) }
    ∷ record { entry_id = ascii "ocean"; contents = none }
    ∷ []

entries-IsText : All (λ e. IsText e.entry_id) entries
entries-IsText = (
  record { utf8 = ascii-is_utf8 (ascii "plains") (omega arith); short = omega arith },
  (
    record { utf8 = ascii-is_utf8 (ascii "desert") (omega arith); short = omega arith },
    (record { utf8 = ascii-is_utf8 (ascii "ocean") (omega arith); short = omega arith }, tt),
  ),
)

try_decode-from_entries_example :
    try_decode_entries (from_entries (ascii "minecraft:biome") entries) ≡ ok (swallow entries)
try_decode-from_entries_example =
    try_decode-from_entries (ascii "minecraft:biome") entries entries-IsText (omega arith)
