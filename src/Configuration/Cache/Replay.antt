-- ===== src/Configuration/Cache/Replay.antt =====
-- A replay of the cache's packets rebuilds the cache.
use Prim.Native.Nat.{lt}
use frame_mc.Prelude.{
  ℕ, ◌≡◌, arith, refl, List, [], ◌∷◌, ◌++◌, All, append_assoc, append-nil, All-append, ap, ◌∙◌,
}
use frame_mc.Packet.{RawPacket}
use frame_mc.Configuration.RegistryData
use frame_mc.Configuration.RegistryData.{RegistryDataPacket}
use frame_mc.Configuration.Cache.{SessionRegistryCache, new, insert, cache_packet, encode_values}
use frame_mc.Configuration.Cache.{serialize_all}
use frame_mc.Configuration.Cache.TreeMap.{BTreeMap, IsSorted, insert_last}
use frame_mc.Configuration.Cache.Order.{compare_bytes}
use frame_mc.Configuration.Cache.Laws.{IsNamed, IsCache}

-- The cache after the packets of a list, each handed to `cache_packet`.
unfoldable pub cache_all : List RawPacket → SessionRegistryCache → SessionRegistryCache
cache_all [] cache = cache
cache_all (raw ∷ raws) cache = cache_all raws (cache_packet raw cache).1

abbrev IsAbove : BTreeMap RegistryDataPacket → BTreeMap RegistryDataPacket → Type 0
IsAbove front entries = All (λ e. All (λ f. compare_bytes f.0 e.0 ≡ lt) front) entries

IsAbove-append :
    (front entries : BTreeMap RegistryDataPacket) (k : List ℕ) (v : RegistryDataPacket)
    → IsAbove front entries
    → All (λ e. compare_bytes k e.0 ≡ lt) entries
    → IsAbove (front ++ ((k, v) ∷ [])) entries
IsAbove-append front [] k v h hk = tt
IsAbove-append front ((j, w) ∷ entries) k v h hk = (
  All-append (λ f. compare_bytes f.0 j ≡ lt) front ((k, v) ∷ []) h.0 (hk.0, tt),
  IsAbove-append front entries k v h.1 hk.1,
)

encode_id : (v : RegistryDataPacket) → (RegistryData.encode v).id ≡ 0x07
unfolding RegistryData.encode
encode_id v = refl

IsAbove-nil : (entries : BTreeMap RegistryDataPacket) → IsAbove [] entries
IsAbove-nil [] = tt
IsAbove-nil ((k, v) ∷ entries) = (tt, IsAbove-nil entries)

cache_packet_again :
    (front : BTreeMap RegistryDataPacket) (k : List ℕ) (v : RegistryDataPacket)
    → IsNamed (k, v)
    → All (λ f. compare_bytes f.0 k ≡ lt) front
    → (cache_packet (RegistryData.encode v) (record { registries = front })).1
      ≡ record { registries = front ++ ((k, v) ∷ []) }
unfolding cache_packet insert
cache_packet_again front k v named below = ground (
  arith,
  encode_id v,
  RegistryData.decode-encode_registry v (rw named.0 named.1),
  insert_last k v front below,
)

replay_onto :
    (front entries : BTreeMap RegistryDataPacket)
    → All IsNamed entries
    → IsSorted entries
    → IsAbove front entries
    → cache_all (encode_values entries) (record { registries = front })
      ≡ record { registries = front ++ entries }
unfolding cache_all encode_values
replay_onto front [] named sorted above = rw append-nil
replay_onto front ((k, v) ∷ entries) named sorted above =
    ap (cache_all (encode_values entries)) (cache_packet_again front k v named.0 above.0)
    ∙ replay_onto (front ++ ((k, v) ∷ [])) entries named.1 sorted.1
        (IsAbove-append front entries k v above.1 sorted.0)
    ∙ ap (λ (m : BTreeMap RegistryDataPacket). record { registries = m })
        (append_assoc front ((k, v) ∷ []) entries)

-- The packets that a well-formed cache is serialized to, cached in turn by an empty cache, give
-- that cache again.
pub cache_all-serialize_all :
    (cache : SessionRegistryCache) → IsCache cache → cache_all (serialize_all cache) new ≡ cache
unfolding serialize_all
cache_all-serialize_all cache h =
    replay_onto [] cache.registries h.named h.sorted (IsAbove-nil cache.registries)
