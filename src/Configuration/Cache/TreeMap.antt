-- ===== src/Configuration/Cache/TreeMap.antt =====
-- `BTreeMap<String, V>` as the list of its entries in the order of their keys.
use frame_mc.Prelude.{◌⊎◌, inl, inr, true, false}
use Prim.Native.Nat.{Ordering, lt, eq, gt}
use frame_mc.Prelude.{
  ℕ, ◌≡◌, arith, refl, List, [], ◌∷◌, ◌++◌, Option, none, some, Bool, list_eq, if◌then◌else◌, All,
}
use frame_mc.Configuration.Cache.Order.{compare_bytes, compare_bytes_sound}
use frame_mc.Configuration.Cache.Order.{compare_bytes_swap, compare_bytes_back, compare_bytes_trans}

abbrev pub BTreeMap : Type 0 → Type 0
BTreeMap V = List (List ℕ × V)

Ordering-cases : (o : Ordering) → (o ≡ lt) ⊎ (o ≡ eq) ⊎ (o ≡ gt)
Ordering-cases lt = inl refl
Ordering-cases eq = inr (inl refl)
Ordering-cases gt = inr (inr refl)

list_eq-compare :
    (xs ys : List ℕ)
    → list_eq xs ys
      ≡ elim (compare_bytes xs ys) as (λ _. Bool) [ eq ↦ true | lt ↦ false | gt ↦ false ]
list_eq-compare [] [] = refl
list_eq-compare [] (y ∷ ys) = refl
list_eq-compare (x ∷ xs) [] = refl
list_eq-compare (x ∷ xs) (y ∷ ys) = ground (arith, list_eq-compare xs ys)

module _ {V : Type 0} where
  unfoldable pub insert : List ℕ → V → BTreeMap V → BTreeMap V
  insert key value [] = (key, value) ∷ []
  insert key value ((k, v) ∷ entries) = elim (compare_bytes key k) [
    | lt ↦ (key, value) ∷ (k, v) ∷ entries
    | eq ↦ (key, value) ∷ entries
    | gt ↦ (k, v) ∷ insert key value entries
  ]

  unfoldable pub get : List ℕ → BTreeMap V → Option V
  get key [] = none
  get key ((k, v) ∷ entries) = elim (compare_bytes key k) [
    | eq ↦ some v
    | lt ↦ none
    | gt ↦ get key entries
  ]

  abbrev pub IsSorted : BTreeMap V → Type 0
  IsSorted [] = Unit
  IsSorted ((k, v) ∷ entries) = All (λ e. compare_bytes k e.0 ≡ lt) entries × IsSorted entries

  -- Where a new entry goes, by the order of its key and the first key.
  insert_before :
      (key k : List ℕ) (value v : V) (entries : BTreeMap V)
      → compare_bytes key k ≡ lt
      → insert key value ((k, v) ∷ entries) ≡ (key, value) ∷ (k, v) ∷ entries
  unfolding insert
  insert_before key k value v entries e = ground arith

  insert_here :
      (key k : List ℕ) (value v : V) (entries : BTreeMap V)
      → compare_bytes key k ≡ eq
      → insert key value ((k, v) ∷ entries) ≡ (key, value) ∷ entries
  unfolding insert
  insert_here key k value v entries e = ground arith

  insert_behind :
      (key k : List ℕ) (value v : V) (entries : BTreeMap V)
      → compare_bytes key k ≡ gt
      → insert key value ((k, v) ∷ entries) ≡ (k, v) ∷ insert key value entries
  unfolding insert
  insert_behind key k value v entries e = ground arith

  pub All-insert :
      (P : List ℕ × V → Type 0) (key : List ℕ) (value : V) (entries : BTreeMap V)
      → P (key, value)
      → All P entries
      → All P (insert key value entries)
  unfolding insert
  All-insert P key value [] h hs = (h, tt)
  All-insert P key value ((k, v) ∷ entries) h hs =
      let behind = All-insert P key value entries h hs.1 in
      elim (Ordering-cases (compare_bytes key k)) [
        | inl e ↦ rw (insert_before key k value v entries e) (h, hs)
        | inr (inl e) ↦ rw (insert_here key k value v entries e) (h, hs.1)
        | inr (inr e) ↦ rw (insert_behind key k value v entries e) (hs.0, behind)
      ]

  All-above :
      (low k : List ℕ) (entries : BTreeMap V)
      → compare_bytes low k ≡ lt
      → All (λ e. compare_bytes k e.0 ≡ lt) entries
      → All (λ e. compare_bytes low e.0 ≡ lt) entries
  All-above low k [] h hs = tt
  All-above low k ((j, w) ∷ entries) h hs =
      (compare_bytes_trans low k j h hs.0, All-above low k entries h hs.1)

  -- Inserting keeps the entries in order, each key once.
  pub insert-IsSorted :
      (key : List ℕ) (value : V) (entries : BTreeMap V)
      → IsSorted entries
      → IsSorted (insert key value entries)
  unfolding insert
  insert-IsSorted key value [] h = (tt, tt)
  insert-IsSorted key value ((k, v) ∷ entries) h =
      let behind = insert-IsSorted key value entries h.1 in
      elim (Ordering-cases (compare_bytes key k)) [
        | inl e ↦ rw (insert_before key k value v entries e) ((e, All-above key k entries e h.0), h)
        | inr (inl e) ↦
            rw (insert_here key k value v entries e) (rw (compare_bytes_sound key k e) h.0, h.1)
        | inr (inr e) ↦ rw (insert_behind key k value v entries e) (
          All-insert (λ x. compare_bytes k x.0 ≡ lt) key value entries (compare_bytes_swap key k e)
              h.0,
          behind,
        )
      ]

  -- The value of a key is the one inserted last; other keys keep theirs.
  pub get-insert :
      (key j : List ℕ) (value : V) (entries : BTreeMap V)
      → get j (insert key value entries) ≡ (if list_eq j key then some value else get j entries)
  unfolding insert get
  get-insert key j value [] = ground (arith, list_eq-compare j key)
  get-insert key j value ((k, v) ∷ entries) = ground (
    arith,
    list_eq-compare j key,
    compare_bytes_trans j key k,
    compare_bytes_trans j k key,
    compare_bytes_sound key k,
    compare_bytes_sound j k,
    compare_bytes_swap key k,
    get-insert key j value entries,
  )

module _ {V : Type 0} where
  -- A key above all others goes to the end.
  pub insert_last :
      (key : List ℕ) (value : V) (entries : BTreeMap V)
      → All (λ e. compare_bytes e.0 key ≡ lt) entries
      → insert key value entries ≡ entries ++ ((key, value) ∷ [])
  unfolding insert
  insert_last key value [] h = refl
  insert_last key value ((k, v) ∷ entries) h =
      ground (arith, compare_bytes_back k key, insert_last key value entries h.1)
