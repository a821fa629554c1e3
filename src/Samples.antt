-- ===== src/Samples.antt =====
-- Inputs for the tests: a player, a backend, and simple instances of the crates' functions.
use frame_mc.Prelude.{ℕ, refl, arith, List, [], ◌∷◌, ◌++◌, some, take, map}
use frame_mc.Error.{ok}
use frame_mc.Wire.{ascii, IsText}
use frame_mc.Wire.Utf8.{ascii-is_utf8}
use frame_mc.Codec.{Zlib, IsZlib}
use frame_mc.Profile.{PlayerProfile, ProfileProperty, IsProperty}
use frame_mc.Config.{BackendConfig, ForwardingMode}
use frame_mc.Login.Success.{UuidText}
use frame_mc.Forwarding.Payload.{Crates, IsProfile}

-- Compression that stores its input.
abbrev pub stored : Zlib
stored = record { deflate = λ plain. ok plain; inflate = λ limit packed. ok (take limit packed) }

pub IsZlib-stored : IsZlib stored
IsZlib-stored = record { inflate-deflate = λ limit plain packed e. ground arith }

abbrev pub crates : Crates
crates = record {
  hmac_sha256 = λ key text. some (take 4 (key ++ text));
  simple = λ id. map (λ b. 97) id;
  properties_json = λ props. some (ascii "[]");
}

abbrev pub uuid : List ℕ
uuid = 1 ∷ 2 ∷ 3 ∷ 4 ∷ 5 ∷ 6 ∷ 7 ∷ 8 ∷ 9 ∷ 10 ∷ 11 ∷ 12 ∷ 13 ∷ 14 ∷ 15 ∷ 16 ∷ []

-- A text form that is the bytes themselves.
abbrev pub uuid_text : UuidText
uuid_text = record { hyphenated = λ id. id; parse_str = λ text. some text; new_v4 = uuid }

abbrev pub name : List ℕ
name = ascii "Steve_1"

abbrev pub address : List ℕ
address = ascii "10.0.0.7"

pub name-IsText : IsText name
name-IsText = record { utf8 = ascii-is_utf8 name (omega arith); short = omega arith }

pub address-IsText : IsText address
address-IsText = record { utf8 = ascii-is_utf8 address (omega arith); short = omega arith }

abbrev pub textures : ProfileProperty
textures = record { name = ascii "skin"; value = ascii "eA=="; signature = some (ascii "sig") }

pub textures-IsProperty : IsProperty textures
textures-IsProperty = record {
  name = record { utf8 = ascii-is_utf8 (ascii "skin") (omega arith); short = omega arith };
  value = record { utf8 = ascii-is_utf8 (ascii "eA==") (omega arith); short = omega arith };
  signature = record { utf8 = ascii-is_utf8 (ascii "sig") (omega arith); short = omega arith };
}

abbrev pub player : PlayerProfile
player = record { id = uuid; name = name; properties = textures ∷ [] }

pub player-IsProfile : IsProfile player
player-IsProfile = record {
  id = refl;
  name = name-IsText;
  properties = (textures-IsProperty, tt);
  count = omega arith;
}

abbrev pub backend_of : ForwardingMode → BackendConfig
backend_of mode = record {
  address = ascii "lobby";
  port = 25566;
  forwarding_mode = mode;
  forwarding_secret = some (ascii "key");
}
