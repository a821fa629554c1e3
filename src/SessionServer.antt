-- ===== src/SessionServer.antt =====
-- src/crypto/mojang_auth.rs: the question to the session server whether a player has joined. The HTTP
-- client and the parser of the profile are parameters.
use frame_mc.Prelude.{
  ℕ, ◌+◌, List, [], ◌∷◌, ◌++◌, Bool, false, not, ◌||◌, ◌&&◌, ◌==◌, leb, ltb, Option, none, some,
}
use frame_mc.Prelude.{◌-◌, if◌then◌else◌}
use Prim.Native.Nat.{◌/◌, ◌%◌}
use frame_mc.Error.{Result, ok, err, authentication_failed}
use frame_mc.Wire.{ascii}
use frame_mc.Profile.{PlayerProfile}

-- `DEFAULT_MOJANG_SESSION_SERVER`
abbrev pub default_mojang_session_server : List ℕ
default_mojang_session_server = ascii "https://sessionserver.mojang.com/session/minecraft/hasJoined"

-- An answer: its status, and the profile that its body parses to, if any.
pub record Response : Type 0 where
  pub status : ℕ
  pub json : Option PlayerProfile

-- `client.get(url).send()`, none where the request fails.
abbrev pub Http : Type 0
Http = List ℕ → Option Response

-- A digit of `{:02X}`.
unfoldable pub upper_digit : ℕ → ℕ
upper_digit n = if ltb n 10 then b'0' + n else b'A' + n - 10

unfoldable pub is_unreserved : ℕ → Bool
is_unreserved b =
    (leb b'a' b && leb b b'z')
    || (leb b'A' b && leb b b'Z')
    || (leb b'0' b && leb b b'9')
    || (b == b'-')
    || (b == b'_')
    || (b == b'.')
    || (b == b'~')

unfoldable pub urlencoding : List ℕ → List ℕ
urlencoding [] = []
urlencoding (b ∷ input) =
    let rest = urlencoding input in
    if is_unreserved b then b ∷ rest else b'%' ∷ upper_digit (b / 16) ∷ upper_digit (b % 16) ∷ rest

-- `endpoint_url.contains('?')`
unfoldable pub has_query : List ℕ → Bool
has_query [] = false
has_query (c ∷ cs) = (c == b'?') || has_query cs

-- The address asked, which names the player and the hash, and not the player's address.
unfoldable pub session_url : List ℕ → List ℕ → List ℕ → List ℕ
session_url endpoint_url username server_hash =
    endpoint_url
    ++ ((if has_query endpoint_url then ascii "&" else ascii "?")
        ++ (ascii "username="
            ++ (urlencoding username ++ (ascii "&serverId=" ++ urlencoding server_hash))))

-- `status.is_success()`
unfoldable pub is_success : ℕ → Bool
is_success status = leb 200 status && ltb status 300

unfoldable pub read_response : Response → Result PlayerProfile
read_response response =
    if response.status == 204
    then err authentication_failed
    else if not (is_success response.status)
    then err authentication_failed
    else elim response.json [ none ↦ err authentication_failed | some profile ↦ ok profile ]

-- The player's address is taken and not used.
unfoldable pub verify_session_with_url :
    Http → List ℕ → List ℕ → List ℕ → List ℕ → Result PlayerProfile
verify_session_with_url http username server_hash client_ip endpoint_url =
    elim (http (session_url endpoint_url username server_hash)) [
      | none ↦ err authentication_failed
      | some response ↦ read_response response
    ]

unfoldable pub verify_session : Http → List ℕ → List ℕ → List ℕ → Result PlayerProfile
verify_session http username server_hash client_ip =
    verify_session_with_url http username server_hash client_ip default_mojang_session_server
