-- ===== src/Jwt.antt =====
-- ssi_rest_api_auth_jwt: the issuers of ssi_rest_jwt_issuer.py, the cache of lib/jwks_cache.py in one
-- process, and what ssi_rest_auth_jwt.py reads of a header. PyJWT, base64 and JSON, and Odoo's comparison
-- of a claim with a column are the interface PyJwt; `V` is the type of claim values, `Key` of key
-- material and `Client` of the state of a PyJWKClient.
pub mod Issuers
pub mod Cache
pub mod KeySources
pub mod Provider
pub mod Clients
pub mod Conflict
pub mod Escapes
pub mod Events
pub mod Reuse
pub mod Steps
pub mod Claims
pub mod Verified
mod Tests
use ssi_rest_api.Prelude.{
  ℕ, String, Bool, true, false, ◌&&◌, ◌||◌, not, Option, none, some, List, [], ◌∷◌, ◌==◌, ◌-◌, leb,
  nat_eq, contains, if◌then◌else◌,
}
use ssi_rest_api.Prelude.Dict.{Dict}
use ssi_rest_api.Prelude.Int.{ℤ}
use ssi_rest_api.Prelude.Text.{split, text_length}
use ssi_rest_api.Auth.Extraction.{bearer_extract}
use Prim.Native.Char.{Char, code}
use Prim.Native.Nat.{◌%◌}
use Prim.Native.String.{◌++◌ as append}

pub data Algorithm : Type 0 where
  hs256 hs384 hs512 rs256 rs384 rs512 es256 es384 es512 : Algorithm

-- `algorithm.startswith("HS")`
unfoldable pub is_hmac : Algorithm → Bool
is_hmac hs256 = true
is_hmac hs384 = true
is_hmac hs512 = true
is_hmac rs256 = false
is_hmac rs384 = false
is_hmac rs512 = false
is_hmac es256 = false
is_hmac es384 = false
is_hmac es512 = false

pub data MatchField : Type 0 where
  login email : MatchField

-- A row of `ssi_rest_jwt_issuer`; empty text is `False`.
pub record Issuer : Type 0 where
  pub id : ℕ
  pub active : Bool
  pub issuer : String
  pub audience : String
  pub algorithm : Algorithm
  pub jwks_url : String
  pub shared_secret : String
  pub user_claim : String
  pub user_match_field : MatchField
  pub leeway : ℤ
  pub profile_id : Option ℕ

-- What a search of `res.users` reads.
pub record User : Type 0 where
  pub id : ℕ
  pub active : Bool
  pub login : String
  pub email : String

-- A client of the cache, with the URL that it is kept for; `serial` tells one object from another.
pub record Cached (Client : Type 0) : Type 0 where
  pub jwks_url : String
  pub serial : ℕ
  pub client : Client

-- The rows in the order of the model, `id desc`, the users in that of theirs, `_clients` of the
-- process, and the numbers of the next row and of the next client.
pub record State (Client : Type 0) : Type 0 where
  pub issuers : List Issuer
  pub next_id : ℕ
  pub users : List User
  pub clients : ℕ → Option (Cached Client)
  pub next_serial : ℕ

-- What PyJWT raises: a `PyJWKClientError`, another `PyJWTError`, or something else.
pub data Raised : Type 0 where
  jwk_client_error : Raised
  jwt_error : Raised
  foreign : (message : String) → Raised

pub data Call (A : Type 0) : Type 0 where
  gives : A → Call A
  throws : Raised → Call A

-- The arguments of `jwt.decode` beside the token.
pub record Checks (Key : Type 0) : Type 0 where
  pub key : Key
  pub algorithms : List Algorithm
  pub audience : String
  pub issuer : String
  pub leeway : ℤ
  pub require : List String

-- `PyJWKClient(url, lifespan=...)`, its `uri` and `get_signing_key_from_jwt(token).key` at a time, which
-- changes the client; a text as key material; `jwt.decode` without and with verification;
-- `urlsafe_b64decode`, and the keys of what `json.loads` reads if that is an object; whether Odoo's
-- search finds a column equal to a claim, what the search raises for a claim that it cannot compare
-- with a text column, and whether the claim is true.
pub record PyJwt (V Key Client : Type 0) : Type 0 where
  pub new_client : (jwks_url : String) (lifespan : ℕ) → Client
  pub uri : Client → String
  pub get_signing_key : (now : ℕ) (token : String) → Client → Call Key × Client
  pub secret : String → Key
  pub peek : String → Call (Dict V)
  pub decode : Checks Key → (now : ℕ) → String → Call (Dict V)
  pub urlsafe_b64decode : String → Option (List ℕ)
  pub object_keys : List ℕ → Option (List String)
  pub equals : Option V → String → Bool
  pub search_error : Option V → Option String
  pub is_truthy : V → Bool

abbrev is_segment_char : ℕ → Bool
is_segment_char c =
    leb b'A' c && leb c b'Z'
    || leb b'a' c && leb c b'z'
    || leb b'0' c && leb c b'9'
    || nat_eq c b'_'
    || nat_eq c b'-'

-- The rest of a match: `$` matches also before a last line break.
unfoldable pub is_segment_rest : String → Bool
is_segment_rest String.[] = true
is_segment_rest (String.◌∷◌ c s) =
    is_segment_char (code c) && is_segment_rest s || nat_eq (code c) 10 && (s == "")

-- `_JWT_SEGMENT_RE.match(part)`
unfoldable pub is_segment : String → Bool
unfolding is_segment_rest
is_segment String.[] = false
is_segment (String.◌∷◌ c s) = is_segment_char (code c) && is_segment_rest s

abbrev pub padding : ℕ → String
padding ℕ.zero = ""
padding (ℕ.suc n) = append "=" (padding n)

module _ {V Key Client : Type 0} (jwt : PyJwt V Key Client) where
  -- `_b64url_decode`
  unfoldable pub b64url_decode : String → Option (List ℕ)
  unfolding text_length
  b64url_decode segment =
      jwt.urlsafe_b64decode (append segment (padding ((4 - text_length segment % 4) % 4)))

  abbrev names_algorithm : Option (List String) → Bool
  names_algorithm none = false
  names_algorithm (some keys) = contains "alg" keys

  abbrev is_jose_header : Option (List ℕ) → Bool
  is_jose_header none = false
  is_jose_header (some bytes) = names_algorithm (jwt.object_keys bytes)

  -- `len(parts) != 3` and the tests of the parts; an empty one is no segment.
  unfoldable pub are_jwt_parts : List String → Bool
  unfolding is_segment b64url_decode
  are_jwt_parts (a ∷ b ∷ c ∷ []) =
      is_segment a && is_segment b && is_segment c && is_jose_header (b64url_decode a)
  are_jwt_parts _ = false

  -- `_looks_like_jwt`
  unfoldable pub looks_like_jwt : String → Bool
  unfolding are_jwt_parts split
  looks_like_jwt token = are_jwt_parts (split b'.' token)

  unfoldable pub own_jwt : Option String → Option String
  unfolding looks_like_jwt
  own_jwt none = none
  own_jwt (some token) = if looks_like_jwt token then some token else none

  -- `_rest_auth_extract`, of the header `Authorization`: the text behind `Bearer `, stripped, as
  -- ssi_rest_auth_bearer.py reads it, if it looks like a JWT.
  unfoldable pub jwt_extract : Option String → Option String
  unfolding own_jwt bearer_extract
  jwt_extract header = own_jwt (bearer_extract header)
