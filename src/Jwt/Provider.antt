-- ===== src/Jwt/Provider.antt =====
-- ssi_rest_api_auth_jwt/models/ssi_rest_auth_jwt.py: the provider that verifies tokens of configured issuers.
use ssi_rest_api.Jwt.{
  PyJwt, Issuer, User, MatchField, Cached, State, Call, gives, throws, Raised, jwk_client_error,
  jwt_error, foreign, Checks, is_hmac, jwt_extract,
}
use ssi_rest_api.Jwt.Cache.{get_client, set_client}
use ssi_rest_api.Prelude.{
  ℕ, String, ◌&&◌, Option, none, some, List, [], ◌∷◌, keep_if, if◌then◌else◌,
}
use ssi_rest_api.Prelude.Dict.{Dict, lookup}
use ssi_rest_api.Errors.{Exception, rest_auth_error, http_exception, odoo_error, unclassified}
use ssi_rest_api.Dispatcher.Arguments.{Outcome, returns, raises}
use ssi_rest_api.Auth.{RestAuthResult, Provider}
use ssi_rest_api.Oauth.{first_where}

abbrev pub invalid_token : {R : Type 0} → Exception R
invalid_token = rest_auth_error "invalid_credential" "Invalid or expired token." 401 []

-- What the exceptions that no handler of the module names become.
abbrev pub uncaught : {R : Type 0} → Raised → Exception R
uncaught jwk_client_error = unclassified "PyJWKClientError"
uncaught jwt_error = unclassified "PyJWTError"
uncaught (foreign message) = unclassified message

-- `except jwt.exceptions.PyJWTError`, of which `PyJWKClientError` is a subclass.
unfoldable pub catch_jwt_error : {R A : Type 0} → Call A → Outcome R A
catch_jwt_error (gives a) = returns a
catch_jwt_error (throws jwk_client_error) = raises invalid_token
catch_jwt_error (throws jwt_error) = raises invalid_token
catch_jwt_error (throws (foreign message)) = raises (uncaught (foreign message))

-- `except PyJWKClientError`
unfoldable pub catch_client_error : {R A : Type 0} → Call A → Outcome R A
catch_client_error (gives a) = returns a
catch_client_error (throws jwk_client_error) = raises invalid_token
catch_client_error (throws jwt_error) = raises (uncaught jwt_error)
catch_client_error (throws (foreign message)) = raises (uncaught (foreign message))

-- A search, which raises for some claims.
abbrev pub search_result : {R A : Type 0} → Option String → A → Outcome R A
search_result none found = returns found
search_result (some message) found = raises (unclassified message)

abbrev pub field_of : MatchField → User → String
field_of MatchField.login u = u.login
field_of MatchField.email u = u.email

abbrev pub profiles_of : Option ℕ → List ℕ
profiles_of none = []
profiles_of (some id) = id ∷ []

abbrev pub checks : {Key : Type 0} → Issuer → Key → Checks Key
checks i key = record {
  key = key;
  algorithms = i.algorithm ∷ [];
  audience = i.audience;
  issuer = i.issuer;
  leeway = i.leeway;
  require = "exp" ∷ [];
}

module _ {V Key Client : Type 0} (jwt : PyJwt V Key Client) where
  -- The search of users, which leaves archived ones out.
  unfoldable pub find_user : MatchField → V → List User → Option User
  find_user field value users =
      first_where (λ u. u.active && jwt.equals (some value) (field_of field u)) users

  -- The search of issuers, which leaves archived ones out.
  unfoldable pub candidates : Option V → List Issuer → List Issuer
  candidates iss rows = keep_if (λ i. i.active && jwt.equals iss i.issuer) rows

module _ {V Key Client R : Type 0} (jwt : PyJwt V Key Client) where
  unfoldable pub user_result : Issuer → Option User → Outcome R RestAuthResult
  user_result i none = raises invalid_token
  user_result i (some u) = returns (record {
    uid = u.id;
    scheme = "jwt";
    profile_ids = profiles_of i.profile_id;
    scopes = [];
    expires_at = none;
  })

  abbrev pub found_user : Issuer → Outcome R (Option User) → Outcome R RestAuthResult
  found_user i (raises e) = raises e
  found_user i (returns o) = user_result i o

  unfoldable pub claimed_user : Issuer → Option V → List User → Outcome R RestAuthResult
  unfolding user_result find_user
  claimed_user i none users = raises invalid_token
  claimed_user i (some value) users =
      if jwt.is_truthy value
      then found_user i (
          search_result (jwt.search_error (some value))
            (find_user jwt i.user_match_field value users))
      else raises invalid_token

  -- `_resolve_user_result`
  unfoldable pub resolve_user_result : Issuer → Dict V → List User → Outcome R RestAuthResult
  unfolding claimed_user lookup
  resolve_user_result i claims users = claimed_user i (lookup i.user_claim claims) users

  module _ (now : ℕ) (token : String) where
    -- The call of the client, whose object keeps what it has changed.
    unfoldable pub ask_client : ℕ → Cached Client × State Client → Outcome R Key × State Client
    unfolding set_client catch_client_error
    ask_client id (entry, s) =
        let (answer, client) = jwt.get_signing_key now token entry.client in
        (catch_client_error answer, set_client id (some (record entry { client = client })) s)

    -- `_resolve_signing_key`
    unfoldable pub resolve_signing_key : Issuer → State Client → Outcome R Key × State Client
    unfolding is_hmac get_client ask_client
    resolve_signing_key i s =
        if is_hmac i.algorithm
        then (returns (jwt.secret i.shared_secret), s)
        else ask_client i.id (get_client jwt i.id i.jwks_url s)

    abbrev pub with_claims : Issuer → List User → Outcome R (Dict V) → Outcome R RestAuthResult
    with_claims i users (raises e) = raises e
    with_claims i users (returns claims) = resolve_user_result i claims users

    abbrev pub decoded_with : Issuer → List User → Outcome R Key → Outcome R RestAuthResult
    decoded_with i users (raises e) = raises e
    decoded_with i users (returns key) =
        with_claims i users (catch_jwt_error (jwt.decode (checks i key) now token))

    -- `_verify_against_issuer`
    unfoldable pub verify_against_issuer :
        Issuer → State Client → Outcome R RestAuthResult × State Client
    unfolding resolve_signing_key catch_jwt_error resolve_user_result
    verify_against_issuer i s =
        let (key, s') = resolve_signing_key i s in (decoded_with i s.users key, s')

    -- `except RestAuthError: continue`
    unfoldable pub or_next :
        Outcome R RestAuthResult × State Client
        → (State Client → Outcome R RestAuthResult × State Client)
        → Outcome R RestAuthResult × State Client
    or_next (returns r, s) next = (returns r, s)
    or_next (raises (rest_auth_error c d n h), s) next = next s
    or_next (raises (http_exception c r), s) next = (raises (http_exception c r), s)
    or_next (raises (odoo_error c n m), s) next = (raises (odoo_error c n m), s)
    or_next (raises (unclassified m), s) next = (raises (unclassified m), s)

    -- `for issuer in candidates`, and the exception after the loop, which is that of no candidate.
    unfoldable pub verify_each :
        List Issuer → State Client → Outcome R RestAuthResult × State Client
    unfolding or_next verify_against_issuer
    verify_each [] s = (raises invalid_token, s)
    verify_each (i ∷ is_) s = or_next (verify_against_issuer i s) (verify_each is_)

    abbrev pub verify_found :
        Outcome R (List Issuer) → State Client → Outcome R RestAuthResult × State Client
    verify_found (raises e) s = (raises e, s)
    verify_found (returns rows) s = verify_each rows s

    unfoldable pub verify_claimed :
        Outcome R (Dict V) → State Client → Outcome R RestAuthResult × State Client
    unfolding candidates verify_each lookup
    verify_claimed (raises e) s = (raises e, s)
    verify_claimed (returns claims) s =
        let iss = lookup "iss" claims in
        verify_found (search_result (jwt.search_error iss) (candidates jwt iss s.issuers)) s

    -- `_rest_auth_verify`
    unfoldable pub jwt_verify : State Client → Outcome R RestAuthResult × State Client
    unfolding verify_claimed catch_jwt_error
    jwt_verify s = verify_claimed (catch_jwt_error (jwt.peek token)) s

  -- A request with the header `Authorization`, at the time `now`.
  unfoldable pub jwt_provider : Option String → ℕ → Provider String (State Client) R
  unfolding jwt_extract jwt_verify
  jwt_provider header now = record {
    rest_auth_extract = returns (jwt_extract jwt header);
    rest_auth_verify = λ token s. jwt_verify now token s;
    rest_auth_challenge = returns "Bearer realm=\"ssi_rest\"";
  }
