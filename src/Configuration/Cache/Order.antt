-- ===== src/Configuration/Cache/Order.antt =====
-- The order of byte strings, which is that of Rust's `String`.
use Prim.Native.Nat.{compare, Ordering, lt, eq, gt}
use frame_mc.Prelude.{ℕ, ◌≡◌, arith, refl, List, [], ◌∷◌}

abbrev pub compare_bytes : List ℕ → List ℕ → Ordering
compare_bytes [] [] = eq
compare_bytes [] (y ∷ ys) = lt
compare_bytes (x ∷ xs) [] = gt
compare_bytes (x ∷ xs) (y ∷ ys) = elim (compare x y) [
  | lt ↦ lt
  | gt ↦ gt
  | eq ↦ compare_bytes xs ys
]

pub compare_bytes_sound : (xs ys : List ℕ) → compare_bytes xs ys ≡ eq → xs ≡ ys
compare_bytes_sound [] [] h = refl
compare_bytes_sound [] (y ∷ ys) h = cc
compare_bytes_sound (x ∷ xs) [] h = cc
compare_bytes_sound (x ∷ xs) (y ∷ ys) h = ground (arith, compare_bytes_sound xs ys)

pub compare_bytes_refl : (xs : List ℕ) → compare_bytes xs xs ≡ eq
compare_bytes_refl [] = refl
compare_bytes_refl (x ∷ xs) = ground (arith, compare_bytes_refl xs)

pub compare_bytes_swap : (xs ys : List ℕ) → compare_bytes xs ys ≡ gt → compare_bytes ys xs ≡ lt
compare_bytes_swap [] [] h = cc
compare_bytes_swap [] (y ∷ ys) h = cc
compare_bytes_swap (x ∷ xs) [] h = refl
compare_bytes_swap (x ∷ xs) (y ∷ ys) h = ground (arith, compare_bytes_swap xs ys)

pub compare_bytes_back : (xs ys : List ℕ) → compare_bytes xs ys ≡ lt → compare_bytes ys xs ≡ gt
compare_bytes_back [] [] h = cc
compare_bytes_back [] (y ∷ ys) h = refl
compare_bytes_back (x ∷ xs) [] h = cc
compare_bytes_back (x ∷ xs) (y ∷ ys) h = ground (arith, compare_bytes_back xs ys)

pub compare_bytes_trans :
    (xs ys zs : List ℕ)
    → compare_bytes xs ys ≡ lt
    → compare_bytes ys zs ≡ lt
    → compare_bytes xs zs ≡ lt
compare_bytes_trans [] [] zs h k = cc
compare_bytes_trans [] (y ∷ ys) [] h k = cc
compare_bytes_trans [] (y ∷ ys) (z ∷ zs) h k = refl
compare_bytes_trans (x ∷ xs) [] zs h k = cc
compare_bytes_trans (x ∷ xs) (y ∷ ys) [] h k = cc
compare_bytes_trans (x ∷ xs) (y ∷ ys) (z ∷ zs) h k = ground (arith, compare_bytes_trans xs ys zs)
