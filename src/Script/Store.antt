-- ===== src/Script/Store.antt =====
-- src/script/engine.rs: what the engine registers for scripts about servers and the shared store of
-- keys and values. The clock and the log are not modelled.
use frame_mc.Prelude.{ℕ, ◌+◌, ◌≡◌, arith, refl, List, [], ◌∷◌, Bool, true, false, not, ◌||◌, ◌&&◌}
use frame_mc.Prelude.{
  if◌then◌else◌, none, some, leb, ltb, ◌==◌, list_eq, list_eq_sound, list_eq_refl,
}
use frame_mc.Script.{Dynamic, Map, unit, end, entry, get}

-- `guard.insert(key, value)` of a hash map: each key stands once.
unfoldable pub kv_set : Map → List ℕ → Dynamic → Map
kv_set end key value = entry key value end
kv_set (entry k v rest) key value =
    if list_eq k key then entry k value rest else entry k v (kv_set rest key value)

unfoldable pub kv_get : Map → List ℕ → Dynamic
kv_get store key = elim (get store key) [ none ↦ unit | some v ↦ v ]

unfoldable pub kv_has : Map → List ℕ → Bool
kv_has store key = elim (get store key) [ none ↦ false | some v ↦ true ]

unfoldable pub without : Map → List ℕ → Map
without end key = end
without (entry k v rest) key =
    if list_eq k key then without rest key else entry k v (without rest key)

-- Whether the key was there, and the store without it.
unfoldable pub kv_remove : Map → List ℕ → Bool × Map
kv_remove store key = (kv_has store key, without store key)

-- `k.starts_with(prefix)`
abbrev pub starts_with : List ℕ → List ℕ → Bool
starts_with s [] = true
starts_with [] (p ∷ prefix) = false
starts_with (c ∷ s) (p ∷ prefix) = (c == p) && starts_with s prefix

-- The order of Rust's `String`s, byte by byte.
abbrev pub text_leb : List ℕ → List ℕ → Bool
text_leb [] ys = true
text_leb (x ∷ xs) [] = false
text_leb (x ∷ xs) (y ∷ ys) = ltb x y || ((x == y) && text_leb xs ys)

unfoldable pub insert_sorted : List ℕ → List (List ℕ) → List (List ℕ)
insert_sorted s [] = s ∷ []
insert_sorted s (t ∷ ts) = if text_leb s t then s ∷ t ∷ ts else t ∷ insert_sorted s ts

-- `texts.sort()`
unfoldable pub sort : List (List ℕ) → List (List ℕ)
sort [] = []
sort (s ∷ ss) = insert_sorted s (sort ss)

unfoldable pub matching_keys : Map → List ℕ → List (List ℕ)
matching_keys end prefix = []
matching_keys (entry k v rest) prefix =
    if starts_with k prefix then k ∷ matching_keys rest prefix else matching_keys rest prefix

unfoldable pub kv_keys : Map → List ℕ → List (List ℕ)
kv_keys store prefix = sort (matching_keys store prefix)

unfoldable pub kv_clear : Map → Map
kv_clear store = end

-- `to_ascii_lowercase` of a byte.
abbrev pub lower : ℕ → ℕ
lower c = if leb b'A' c && leb c b'Z' then c + 32 else c

abbrev pub eq_ignore_ascii_case : List ℕ → List ℕ → Bool
eq_ignore_ascii_case [] [] = true
eq_ignore_ascii_case [] (y ∷ ys) = false
eq_ignore_ascii_case (x ∷ xs) [] = false
eq_ignore_ascii_case (x ∷ xs) (y ∷ ys) = (lower x == lower y) && eq_ignore_ascii_case xs ys

unfoldable pub server_exists : List (List ℕ) → List ℕ → Bool
server_exists [] name = false
server_exists (s ∷ servers) name = eq_ignore_ascii_case s name || server_exists servers name

get-kv_set :
    (store : Map) (key k : List ℕ) (value : Dynamic)
    → get (kv_set store key value) k ≡ (if list_eq key k then some value else get store k)
unfolding get kv_set
get-kv_set end key k value = refl
get-kv_set (entry j v rest) key k value = ground (
  arith,
  list_eq_sound j key,
  list_eq_sound key k,
  list_eq_sound j k,
  list_eq_refl k,
  get-kv_set rest key k value,
)

get-without :
    (store : Map) (key k : List ℕ)
    → get (without store key) k ≡ (if list_eq key k then none else get store k)
unfolding get without
get-without end key k = ground arith
get-without (entry j v rest) key k = ground (
  arith,
  list_eq_sound j key,
  list_eq_sound key k,
  list_eq_sound j k,
  list_eq_refl k,
  get-without rest key k,
)

-- The store as a function of its keys: a key that was set holds the value, one that was removed
-- holds none, and every other key holds what it held.
pub kv_get-kv_set :
    (store : Map) (key k : List ℕ) (value : Dynamic)
    → (kv_get (kv_set store key value) k ≡ (if list_eq key k then value else kv_get store k))
      × (kv_has (kv_set store key value) k ≡ (list_eq key k || kv_has store k))
      × (kv_get (kv_remove store key).1 k ≡ (if list_eq key k then unit else kv_get store k))
      × (kv_has (kv_remove store key).1 k ≡ (not (list_eq key k) && kv_has store k))
unfolding kv_get kv_has kv_remove
kv_get-kv_set store key k value = (
  ground (arith, get-kv_set store key k value),
  ground (arith, get-kv_set store key k value),
  ground (arith, get-without store key k),
  ground (arith, get-without store key k),
)
