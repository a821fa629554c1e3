-- ===== src/Profile.antt =====
-- src/crypto/mojang_auth.rs: player profiles. A `Uuid` is the list of its 16 bytes.
use frame_mc.Prelude.{ℕ, ◌≡◌, List, [], ◌∷◌, ◌++◌, Option, none, some, length, All, refl}
use frame_mc.Prelude.{◌==◌, if◌then◌else◌, arith, append_assoc, zero, suc}
use frame_mc.Error.{ok}
use frame_mc.Wire.{Reader, ◌>>=◌, pure, get_u8, get_string, put_block, IsText}
use frame_mc.Wire.Laws.{get_string-put_string}

abbrev pub IsUuid : List ℕ → Type 0
IsUuid id = length id ≡ 16

pub record ProfileProperty : Type 0 where
  pub name : List ℕ
  pub value : List ℕ
  pub signature : Option (List ℕ)

pub record PlayerProfile : Type 0 where
  pub id : List ℕ
  pub name : List ℕ
  pub properties : List ProfileProperty

-- A signature on the wire: a flag, and the text behind it if there is one.
unfoldable pub put_signature : Option (List ℕ) → List ℕ
put_signature none = 0 ∷ []
put_signature (some signature) = 1 ∷ put_block signature

-- The body of `for prop in &self.properties`.
unfoldable pub put_property : ProfileProperty → List ℕ
put_property prop = put_block prop.name ++ (put_block prop.value ++ put_signature prop.signature)

unfoldable pub put_properties : List ProfileProperty → List ℕ
put_properties [] = []
put_properties (prop ∷ props) = put_property prop ++ put_properties props

-- The body of `for _ in 0..prop_count`.
unfoldable pub read_signature : ℕ → Reader (Option (List ℕ))
read_signature flag = if flag == 0 then pure none else (do s ← get_string; pure (some s))

unfoldable pub read_property : Reader ProfileProperty
read_property = do
  name ← get_string
  value ← get_string
  is_signed ← get_u8
  signature ← read_signature is_signed
  pure (record { name = name; value = value; signature = signature })

unfoldable pub read_properties : ℕ → Reader (List ProfileProperty)
read_properties zero = pure []
read_properties (suc n) = do prop ← read_property; props ← read_properties n; pure (prop ∷ props)

abbrev pub IsSignature : Option (List ℕ) → Type 0
IsSignature none = Unit
IsSignature (some s) = IsText s

-- A property whose texts are UTF-8 and short enough for an `i32` length.
pub record IsProperty (prop : ProfileProperty) : Type 0 where
  pub name : IsText prop.name
  pub value : IsText prop.value
  pub signature : IsSignature prop.signature

read_signature-put_signature :
    (s : Option (List ℕ)) (rest : List ℕ)
    → IsSignature s
    → (get_u8 >>= read_signature) (put_signature s ++ rest) ≡ ok (s, rest)
unfolding read_signature put_signature
read_signature-put_signature none rest h = refl
read_signature-put_signature (some s) rest h = ground (arith, get_string-put_string s rest h)

read_property-put_property :
    (prop : ProfileProperty) (rest : List ℕ)
    → IsProperty prop
    → read_property (put_property prop ++ rest) ≡ ok (prop, rest)
unfolding read_property put_property
read_property-put_property prop rest h = rw append_assoc (
    rw append_assoc (
      ground (
        arith,
        get_string-put_string prop.name
            (put_block prop.value ++ (put_signature prop.signature ++ rest)) h.name,
        get_string-put_string prop.value (put_signature prop.signature ++ rest) h.value,
        read_signature-put_signature prop.signature rest h.signature,
      )))

-- So many properties as were written are read back.
pub read_properties-put_properties :
    (props : List ProfileProperty) (rest : List ℕ)
    → All IsProperty props
    → read_properties (length props) (put_properties props ++ rest) ≡ ok (props, rest)
unfolding read_properties put_properties
read_properties-put_properties [] rest h = refl
read_properties-put_properties (prop ∷ props) rest h = rw append_assoc (
    ground (
      arith,
      read_property-put_property prop (put_properties props ++ rest) h.0,
      read_properties-put_properties props rest h.1,
    ))
