-- ===== src/Listener/Compare.antt =====
-- The comparison in constant time is the comparison of texts.
use frame_mc.Prelude.{ℕ, zero, suc, ◌+◌, ◌*◌, ◌≤◌, ◌≡◌, refl, arith, List, [], ◌∷◌, true}
use frame_mc.Prelude.{
  length, list_eq, list_eq_sound, list_eq_refl, Bool-cases, inl, inr, sym, ap, ◌∙◌,
}
use Prim.Native.Nat.{◌/◌, ◌%◌, bit_or, bit_xor, differ, bit_xor-bitwise}
use frame_mc.Prelude.Bits.{or_digit, zero-bit_or, digits_enough}
use frame_mc.Listener.{diff_loop, constant_time_eq}

xor_digit : (a b : ℕ) → bit_xor a b ≡ bit_xor (a / 2) (b / 2) * 2 + differ (a % 2) (b % 2)
xor_digit zero b = simp bit_xor-bitwise (omega arith)
xor_digit (suc a) b = simp bit_xor-bitwise (
    omega (
      arith,
      digits_enough (λ b. b) differ a (suc a / 2) (suc a / 2) (b / 2) (omega arith) (omega arith),
    ))

zero-bit_xor : (b : ℕ) → bit_xor 0 b ≡ b
zero-bit_xor b = bit_xor-bitwise 0 b

differ_self : (a : ℕ) → differ a a ≡ 0
differ_self zero = refl
differ_self (suc a) = differ_self a

differ_zero : (a b : ℕ) → differ a b ≡ 0 → a ≡ b
differ_zero zero b h = omega arith
differ_zero (suc a) zero h = omega arith
differ_zero (suc a) (suc b) h = omega (arith, differ_zero a b h)

-- Equal words, and only those, have no differing bit.
xor_self : (n a : ℕ) → a ≤ n → bit_xor a a ≡ 0
xor_self n zero h = zero-bit_xor 0
xor_self zero (suc a) h = absurd (omega arith)
xor_self (suc n) (suc a) h = omega (
  arith,
  xor_digit (suc a) (suc a),
  xor_self n (suc a / 2) (omega arith),
  differ_self (suc a % 2),
)

xor_same : (n a b : ℕ) → a ≤ n → bit_xor a b ≡ 0 → a ≡ b
xor_same n zero b h e = omega (arith, zero-bit_xor b)
xor_same zero (suc a) b h e = absurd (omega arith)
xor_same (suc n) (suc a) b h e =
    let halves =
      xor_same n (suc a / 2) (b / 2) (omega arith) (omega (arith, xor_digit (suc a) b)) in
    let last = differ_zero (suc a % 2) (b % 2) (omega (arith, xor_digit (suc a) b)) in
    omega (arith, halves, last)

or_left : (n a b : ℕ) → a ≤ n → bit_or a b ≡ 0 → a ≡ 0
or_left n zero b h e = refl
or_left zero (suc a) b h e = absurd (omega arith)
or_left (suc n) (suc a) b h e = omega (
  arith,
  or_digit (suc a) b,
  or_left n (suc a / 2) (b / 2) (omega arith) (omega (arith, or_digit (suc a) b)),
)

-- A difference once found stays.
diff_stays : (diff : ℕ) (a b : List ℕ) → diff_loop diff a b ≡ 0 → diff ≡ 0
unfolding diff_loop
diff_stays diff [] b e = e
diff_stays diff (x ∷ a) [] e = e
diff_stays diff (x ∷ a) (y ∷ b) e =
    or_left diff diff (bit_xor x y) (omega arith) (diff_stays (bit_or diff (bit_xor x y)) a b e)

diff_none : (a b : List ℕ) → length a ≡ length b → diff_loop 0 a b ≡ 0 → a ≡ b
unfolding diff_loop
diff_none [] [] h e = refl
diff_none [] (y ∷ b) h e = absurd (omega arith)
diff_none (x ∷ a) [] h e = absurd (omega arith)
diff_none (x ∷ a) (y ∷ b) h e =
    let here : bit_or 0 (bit_xor x y) ≡ 0 = diff_stays (bit_or 0 (bit_xor x y)) a b e in
    let same : x ≡ y = xor_same x x y (omega arith) (sym (zero-bit_or (bit_xor x y)) ∙ here) in
    let rest : a ≡ b =
      diff_none a b (omega arith) (sym (ap (λ (d : ℕ). diff_loop d a b) here) ∙ e) in
    cc

diff_self : (a : List ℕ) → diff_loop 0 a a ≡ 0
unfolding diff_loop
diff_self [] = refl
diff_self (x ∷ a) = rw (zero-bit_or (bit_xor x x), xor_self x x (omega arith)) (diff_self a)

constant_time_eq_same : (a b : List ℕ) → constant_time_eq a b ≡ true → a ≡ b
unfolding constant_time_eq
constant_time_eq_same a b h = diff_none a b (ground arith) (ground arith)

constant_time_eq_refl : (a : List ℕ) → constant_time_eq a a ≡ true
unfolding constant_time_eq
constant_time_eq_refl a = ground (arith, diff_self a)

-- The comparison in constant time, which reads both texts to their ends and collects differing bits,
-- holds exactly for equal texts.
pub constant_time_eq-list_eq : (a b : List ℕ) → constant_time_eq a b ≡ list_eq a b
constant_time_eq-list_eq a b = elim (Bool-cases (constant_time_eq a b)) [
  | inl t ↦ let same = constant_time_eq_same a b t in t ∙ sym (rw (← same) (list_eq_refl a))
  | inr f ↦ elim (Bool-cases (list_eq a b)) [
    | inr g ↦ f ∙ sym g
    | inl g ↦
        let same = list_eq_sound a b g in
        let holds : constant_time_eq a b ≡ true = rw (← same) (constant_time_eq_refl a) in
        absurd (ground arith)
  ]
]
