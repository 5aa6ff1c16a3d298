-- ===== src/Jwt/Conflict.antt =====
-- A header with a JWT on a route that is also open to the scheme `bearer` (ssi_rest_auth_jwt.py,
-- `_looks_like_jwt`).
use ssi_rest_api.Jwt.{PyJwt, State, looks_like_jwt, own_jwt, jwt_extract}
use ssi_rest_api.Jwt.Provider.{jwt_provider}
use ssi_rest_api.Prelude.{
  ℕ, String, ◌≡◌, ap, true, Option, none, some, [], ◌∷◌, Bool-cases, inl, inr, arith,
}
use ssi_rest_api.Dispatcher.Arguments.{returns, raises}
use ssi_rest_api.Auth.{Provider, Session, auth_method, multiple_credentials}
use ssi_rest_api.Auth.Extraction.{bearer_extract, bearer_provider, bearer_conflict}

module _ {V Key Client : Type 0} (jwt : PyJwt V Key Client) where
  own_jwt-some :
      (found : Option String) (t : String)
      → own_jwt jwt found ≡ some t
      → (found ≡ some t) × (looks_like_jwt jwt t ≡ true)
  unfolding own_jwt
  own_jwt-some none t e = cc
  own_jwt-some (some token) t e = elim (Bool-cases (looks_like_jwt jwt token)) [
    | inl own ↦ let same : Option.some token ≡ some t = rw own at e in (same, ground (arith, own))
    | inr foreign ↦ let impossible = rw foreign at e in absurd (cc)
  ]

  -- What the provider extracts is the token that `bearer` extracts, and looks like a JWT.
  pub jwt_extract-bearer :
      (header : Option String) (t : String)
      → jwt_extract jwt header ≡ some t
      → (bearer_extract header ≡ some t) × (looks_like_jwt jwt t ≡ true)
  unfolding jwt_extract
  jwt_extract-bearer header t h = own_jwt-some (bearer_extract header) t h

  -- On a route open to both schemes, a header with a token that looks like a JWT makes authentication
  -- raise 400, verifying nothing, since the scheme `bearer` extracts the same token.
  pub jwt_conflict :
      {R : Type 0} (env : String → Option (Provider String (State Client) R))
      (header : Option String) (check : String → State Client → Option ℕ × State Client) (now : ℕ)
      (t : String) (s : Session (State Client))
      → env "ssi_rest_auth_bearer" ≡ some (bearer_provider header check)
      → env "ssi_rest_auth_jwt" ≡ some (jwt_provider jwt header now)
      → jwt_extract jwt header ≡ some t
      → auth_method env
          (("bearer", "ssi_rest_auth_bearer") ∷ ("jwt", "ssi_rest_auth_jwt") ∷ [])
          none
          s
        ≡ (raises multiple_credentials, s)
  unfolding jwt_provider
  jwt_conflict env header check now t s b o found =
      bearer_conflict env header check "jwt" "ssi_rest_auth_jwt" (jwt_provider jwt header now) t s b
        o (ap returns found) (jwt_extract-bearer header t found).0
