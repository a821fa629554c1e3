-- ===== src/Configuration/Cache.antt =====
-- src/protocol/configuration.rs: `SessionRegistryCache`. Its `BTreeMap` is the list of its entries
-- in the order of their keys, which is the byte order of Rust's `String`.
pub mod Order
pub mod TreeMap
pub mod Laws
pub mod Replay
use frame_mc.Prelude.{
  ℕ, List, [], ◌∷◌, ◌++◌, Bool, true, false, Option, none, some, ◌==◌, if◌then◌else◌,
}
use frame_mc.Prelude.{length, map}
use frame_mc.Error.{Result, ok, err}
use frame_mc.Wire.{ascii}
use frame_mc.Packet.{RawPacket, frame}
use frame_mc.Configuration.RegistryData
use frame_mc.Configuration.RegistryData.{RegistryDataPacket, registry_data_packet_id}
use TreeMap
use TreeMap.{BTreeMap}

pub record SessionRegistryCache : Type 0 where
  pub registries : BTreeMap RegistryDataPacket

pub data ConfigAction : Type 0 where
  cached_registry : List ℕ → ConfigAction
  transition_to_play : ConfigAction
  passthrough : RawPacket → ConfigAction

abbrev pub new : SessionRegistryCache
new = record { registries = [] }

unfoldable pub insert : RegistryDataPacket → SessionRegistryCache → SessionRegistryCache
insert packet cache = record cache {
  registries = TreeMap.insert packet.registry_id packet cache.registries;
}

unfoldable pub insert_raw : List ℕ → List ℕ → SessionRegistryCache → SessionRegistryCache
insert_raw registry_id raw_data cache =
    insert (record { registry_id = registry_id; raw_data = raw_data }) cache

-- What a fallible method returns, and the cache after it.
unfoldable pub cache_packet : RawPacket → SessionRegistryCache → Result Bool × SessionRegistryCache
cache_packet packet cache =
    if packet.id == registry_data_packet_id
    then elim (RegistryData.decode packet) [
      | ok reg ↦ (ok true, insert reg cache)
      | err e ↦ (err e, cache)
    ]
    else (ok false, cache)

-- `FinishConfiguration` decodes without looking at its payload.
unfoldable pub process_clientbound_packet :
    RawPacket → SessionRegistryCache → Result ConfigAction × SessionRegistryCache
process_clientbound_packet packet cache =
    if packet.id == registry_data_packet_id
    then elim (RegistryData.decode packet) [
      | ok reg ↦ (ok (cached_registry reg.registry_id), insert reg cache)
      | err e ↦ (err e, cache)
    ]
    else if packet.id == 0x02
    then (ok transition_to_play, cache)
    else (ok (passthrough packet), cache)

unfoldable pub get : List ℕ → SessionRegistryCache → Option RegistryDataPacket
get registry_id cache = TreeMap.get registry_id cache.registries

unfoldable pub get_raw : List ℕ → SessionRegistryCache → Option (List ℕ)
get_raw registry_id cache = elim (TreeMap.get registry_id cache.registries) [
  | some packet ↦ some packet.raw_data
  | none ↦ none
]

unfoldable pub dimension_type : SessionRegistryCache → Option RegistryDataPacket
dimension_type cache = get (ascii "minecraft:dimension_type") cache

unfoldable pub biomes : SessionRegistryCache → Option RegistryDataPacket
biomes cache = elim (get (ascii "minecraft:worldgen/biome") cache) [
  | some packet ↦ some packet
  | none ↦ get (ascii "minecraft:biome") cache
]

unfoldable pub damage_type : SessionRegistryCache → Option RegistryDataPacket
damage_type cache = get (ascii "minecraft:damage_type") cache

unfoldable pub contains : List ℕ → SessionRegistryCache → Bool
contains registry_id cache = elim (get registry_id cache) [ some packet ↦ true | none ↦ false ]

unfoldable pub len : SessionRegistryCache → ℕ
len cache = length cache.registries

unfoldable pub is_empty : SessionRegistryCache → Bool
is_empty cache = len cache == 0

unfoldable pub clear : SessionRegistryCache → SessionRegistryCache
clear cache = record cache { registries = [] }

unfoldable pub encode_values : BTreeMap RegistryDataPacket → List RawPacket
encode_values [] = []
encode_values ((key, packet) ∷ entries) = RegistryData.encode packet ∷ encode_values entries

unfoldable pub serialize_all : SessionRegistryCache → List RawPacket
serialize_all cache = encode_values cache.registries

-- The bytes that `replay_to` writes: each packet's frame, in order.
unfoldable pub frames : List RawPacket → List ℕ
frames [] = []
frames (packet ∷ packets) = frame packet ++ frames packets

-- The count of packets, and what the writer holds then.
unfoldable pub replay_to : SessionRegistryCache → List ℕ → ℕ × List ℕ
replay_to cache written = (length (serialize_all cache), written ++ frames (serialize_all cache))
