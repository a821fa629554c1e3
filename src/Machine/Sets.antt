-- ===== src/Machine/Sets.antt =====
-- `std::collections::HashSet` of byte strings and of numbers, as lists that hold each member once.
use frame_mc.Prelude.{ℕ, ◌≡◌, arith, refl, List, [], ◌∷◌, Bool, true, false, not, ◌||◌, ◌&&◌, ◌==◌}
use frame_mc.Prelude.{if◌then◌else◌, list_eq, list_eq_sound, list_eq_refl}

-- Equality of the members, which decides identity.
pub record Key (A : Type 0) : Type 0 where
  pub beq : A → A → Bool
  pub beq_sound : (a b : A) → beq a b ≡ true → a ≡ b
  pub beq_refl : (a : A) → beq a a ≡ true

instance abbrev pub bytes_key : Key (List ℕ)
bytes_key = record { beq = list_eq; beq_sound = list_eq_sound; beq_refl = list_eq_refl }

abbrev pub nat_eq : ℕ → ℕ → Bool
nat_eq a b = a == b

pub nat_eq_sound : (a b : ℕ) → nat_eq a b ≡ true → a ≡ b
nat_eq_sound a b h = ground arith

pub nat_eq_refl : (a : ℕ) → nat_eq a a ≡ true
nat_eq_refl a = ground arith

instance abbrev pub nat_key : Key ℕ
nat_key = record { beq = nat_eq; beq_sound = nat_eq_sound; beq_refl = nat_eq_refl }

module _ {A : Type 0} ⦃k : Key A⦄ where
  unfoldable pub contains : List A → A → Bool
  contains [] a = false
  contains (x ∷ xs) a = k.beq x a || contains xs a

  unfoldable pub insert : A → List A → List A
  insert a xs = if contains xs a then xs else a ∷ xs

  unfoldable pub remove : A → List A → List A
  remove a [] = []
  remove a (x ∷ xs) = if k.beq x a then remove a xs else x ∷ remove a xs

  unfoldable pub is_set : List A → Bool
  is_set [] = true
  is_set (x ∷ xs) = not (contains xs x) && is_set xs

  pub contains-insert :
      (a b : A) (xs : List A) → contains (insert a xs) b ≡ (k.beq a b || contains xs b)
  unfolding contains insert
  contains-insert a b xs = ground (arith, k.beq_sound a b, k.beq_refl b)

  pub contains-remove :
      (a b : A) (xs : List A) → contains (remove a xs) b ≡ (not (k.beq a b) && contains xs b)
  unfolding contains remove
  contains-remove a b [] = ground arith
  contains-remove a b (x ∷ xs) = ground (
    arith,
    k.beq_sound x a,
    k.beq_sound a b,
    k.beq_sound x b,
    k.beq_refl b,
    contains-remove a b xs,
  )

  pub insert-is_set : (a : A) (xs : List A) → is_set xs ≡ true → is_set (insert a xs) ≡ true
  unfolding insert is_set
  insert-is_set a xs h = ground arith

  pub remove-is_set : (a : A) (xs : List A) → is_set xs ≡ true → is_set (remove a xs) ≡ true
  unfolding remove is_set
  remove-is_set a [] h = refl
  remove-is_set a (x ∷ xs) h = ground (arith, contains-remove a x xs, remove-is_set a xs)
