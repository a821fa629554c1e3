-- ===== src/Configuration/Cache/Laws.antt =====
-- The registry cache: its invariant, and that a replay rebuilds it.
use frame_mc.Prelude.{ℕ, ◌≡◌, arith, refl, List, Option, some, All}
use frame_mc.Prelude.{inl, inr, list_eq, if◌then◌else◌}
use frame_mc.Error.{Result-cases, ok, err}
use frame_mc.Wire.{get_string, IsText}
use frame_mc.Wire.Laws.{get_string-IsText}
use frame_mc.Packet.{RawPacket}
use frame_mc.Configuration.RegistryData
use frame_mc.Configuration.RegistryData.{RegistryDataPacket, registry_data_packet_id, read_fields}
use frame_mc.Configuration.Cache.{SessionRegistryCache, new, insert, get}
use frame_mc.Configuration.Cache.{process_clientbound_packet}
use frame_mc.Configuration.Cache.TreeMap.{IsSorted, insert-IsSorted, get-insert, All-insert}

-- An entry stands under its own registry's name.
abbrev pub IsNamed : List ℕ × RegistryDataPacket → Type 0
IsNamed e = (e.1.registry_id ≡ e.0) × IsText e.0

pub record IsCache (cache : SessionRegistryCache) : Type 0 where
  pub sorted : IsSorted cache.registries
  pub named : All IsNamed cache.registries

pub IsCache-new : IsCache new
IsCache-new = record { sorted = tt; named = tt }

insert-IsCache :
    (packet : RegistryDataPacket) (cache : SessionRegistryCache)
    → IsText packet.registry_id
    → IsCache cache
    → IsCache (insert packet cache)
unfolding insert
insert-IsCache packet cache text h = record {
  sorted = insert-IsSorted packet.registry_id packet cache.registries h.sorted;
  named = All-insert IsNamed packet.registry_id packet cache.registries (refl, text) h.named;
}

decode-IsText :
    (raw : RawPacket) (reg : RegistryDataPacket)
    → RegistryData.decode raw ≡ ok reg
    → IsText reg.registry_id
unfolding RegistryData.decode RegistryData.read_fields
decode-IsText raw reg e = elim (Result-cases (get_string raw.payload)) [
  | inr (x, g) ↦ absurd (ground arith)
  | inl ((s, rest), g) ↦ ground (arith, get_string-IsText raw.payload s rest g)
]

-- The cache after a packet: the registry that the packet decodes to is inserted, and nothing else
-- changes it.
abbrev pub cached : RawPacket → SessionRegistryCache → SessionRegistryCache
cached raw cache = elim (RegistryData.decode raw) [ ok reg ↦ insert reg cache | err e ↦ cache ]

process_cached :
    (raw : RawPacket) (cache : SessionRegistryCache)
    → (process_clientbound_packet raw cache).1 ≡ cached raw cache
unfolding process_clientbound_packet RegistryData.decode
process_cached raw cache = ground arith

cached-IsCache :
    (raw : RawPacket) (cache : SessionRegistryCache) → IsCache cache → IsCache (cached raw cache)
cached-IsCache raw cache h = elim (Result-cases (RegistryData.decode raw)) [
  | inr (x, e) ↦ rw (e, cached) h
  | inl (reg, e) ↦ rw (e, cached) (insert-IsCache reg cache (decode-IsText raw reg e) h)
]

-- Whatever packet a backend sends, the cache stays in order, with each registry under its name.
pub process_clientbound_packet-IsCache :
    (raw : RawPacket) (cache : SessionRegistryCache)
    → IsCache cache
    → IsCache (process_clientbound_packet raw cache).1
process_clientbound_packet-IsCache raw cache h =
    rw (process_cached raw cache) (cached-IsCache raw cache h)

-- After a packet, a name's registry is the one that the packet decodes to, if it is of that name;
-- every other name keeps its registry, and so do all after a packet that is refused.
pub get-process_clientbound_packet :
    (raw : RawPacket) (cache : SessionRegistryCache) (name : List ℕ)
    → get name (process_clientbound_packet raw cache).1
      ≡ elim (RegistryData.decode raw) as (λ _. Option RegistryDataPacket) [
        | ok reg ↦ if list_eq name reg.registry_id then some reg else get name cache
        | err e ↦ get name cache
      ]
unfolding get insert
get-process_clientbound_packet raw cache name =
    rw (process_cached raw cache) (elim (Result-cases (RegistryData.decode raw)) [
      | inr (x, e) ↦ rw (e, cached)
      | inl (reg, e) ↦ ground (arith, get-insert reg.registry_id name reg cache.registries)
    ])
