-- ===== src/Oauth/Endpoints/Tokens.antt =====
-- ssi_rest_api_auth_oauth2/controllers/main.py: the endpoint token.
use ssi_rest_api.Prelude.{
  ℕ, String, Bool, true, false, ◌||◌, not, Option, none, some, List, [], ◌∷◌, ◌==◌, contains,
  if◌then◌else◌,
}
use ssi_rest_api.Prelude.Int.{ℤ}
use ssi_rest_api.Prelude.Dict.{Dict, lookup}
use ssi_rest_api.Auth.{join_with}
use ssi_rest_api.Dispatcher.Arguments.{Outcome, returns, raises}
use ssi_rest_api.Oauth.{
  Crypto, Draw, Client, code, access, refresh, Token, Store, issue, lookup_token, revoke_rows,
}
use ssi_rest_api.Oauth.Checks.{
  check_pkce, is_confidential, check_client_secret, allows_grant, supported_grants,
}
use ssi_rest_api.Oauth.Endpoints.Requests.{
  rejection, find_client, param, extract_client_credentials,
}

pub record TokenResponse : Type 0 where
  pub access_token : String
  pub expires_in : ℤ
  pub scope : String
  pub refresh_token : Option String

abbrev pub scope_or : String → List String → String
scope_or scope codes = if scope == "" then join_with " " codes else scope

module _ (crypto : Crypto) (decode : String → Option String) where
  -- The code is consumed, then the two tokens are issued.
  unfoldable pub exchange :
      {R : Type 0}
      → Client
      → Token
      → Outcome R Bool
      → ℕ
      → Draw
      → Draw
      → Store
      → Outcome R TokenResponse × Store
  unfolding revoke_rows issue
  exchange client row (raises e) now d1 d2 s = (raises e, s)
  exchange client row (returns false) now d1 d2 s =
      (raises (rejection "invalid_grant" "code_verifier does not match code_challenge." 400), s)
  exchange client row (returns true) now d1 d2 s =
      let consumed = revoke_rows (row.id ∷ []) s in
      let (raw_access, with_access) =
        issue crypto client row.user_id access (some row.scope) client.access_token_lifetime none
          none now d1 consumed in
      let (raw_refresh, with_refresh) =
        issue crypto client row.user_id refresh (some row.scope) client.refresh_token_lifetime none
          none now d2 with_access in
      (
        returns (record {
          access_token = raw_access;
          expires_in = client.access_token_lifetime;
          scope = row.scope;
          refresh_token = some raw_refresh;
        }),
        with_refresh,
      )

  unfoldable pub exchange_found :
      {R : Type 0}
      → Client
      → Option Token
      → Dict String
      → ℕ
      → Draw
      → Draw
      → Store
      → Outcome R TokenResponse × Store
  unfolding exchange check_pkce
  exchange_found client none kw now d1 d2 s = (
    raises (rejection "invalid_grant" "Unknown, expired, or already used authorization code." 400),
    s,
  )
  exchange_found client (some row) kw now d1 d2 s =
      exchange client row (check_pkce crypto row (lookup "code_verifier" kw)) now d1 d2 s

  unfoldable pub token_authorization_code :
      {R : Type 0}
      → Client
      → Dict String
      → ℕ
      → Draw
      → Draw
      → Store
      → Outcome R TokenResponse × Store
  unfolding exchange_found lookup_token
  token_authorization_code client kw now d1 d2 s =
      if param kw "code" == ""
      then (raises (rejection "invalid_request" "code is required." 400), s)
      else exchange_found client (lookup_token crypto (param kw "code") code (some client) now s) kw
          now d1 d2 s

  -- A token that is issued without a refresh token.
  unfoldable pub issue_access :
      {R : Type 0} → Client → Option ℕ → String → ℕ → Draw → Store → Outcome R TokenResponse × Store
  unfolding issue
  issue_access client user scope now d s =
      let (raw, after) =
        issue crypto client user access (some scope) client.access_token_lifetime none none now d
          s in
      (
        returns (record {
          access_token = raw;
          expires_in = client.access_token_lifetime;
          scope = scope;
          refresh_token = none;
        }),
        after,
      )

  unfoldable pub token_client_credentials :
      {R : Type 0}
      → Client
      → String
      → Dict String
      → ℕ
      → Draw
      → Store
      → Outcome R TokenResponse × Store
  unfolding issue_access check_client_secret join_with
  token_client_credentials client secret kw now d s =
      if not (is_confidential client.client_type)
      then (
        raises (
            rejection "unauthorized_client" "client_credentials requires a confidential client."
              400),
        s,
      )
      else if not (check_client_secret crypto client (some secret))
      then (raises (rejection "invalid_client" "Invalid client credentials." 401), s)
      else issue_access client none (scope_or (param kw "scope") client.scope_codes) now d s

  unfoldable pub refreshed :
      {R : Type 0} → Client → Option Token → ℕ → Draw → Store → Outcome R TokenResponse × Store
  unfolding issue_access
  refreshed client none now d s =
      (raises (rejection "invalid_grant" "Unknown, expired, or revoked refresh token." 400), s)
  refreshed client (some row) now d s = issue_access client row.user_id row.scope now d s

  unfoldable pub token_refresh_token :
      {R : Type 0} → Client → Dict String → ℕ → Draw → Store → Outcome R TokenResponse × Store
  unfolding refreshed lookup_token
  token_refresh_token client kw now d s =
      if param kw "refresh_token" == ""
      then (raises (rejection "invalid_request" "refresh_token is required." 400), s)
      else refreshed client
          (lookup_token crypto (param kw "refresh_token") refresh (some client) now s) now d s

  -- `_check_client_secret_if_confidential` raises where this is false.
  unfoldable pub secret_accepted : Client → String → Bool
  unfolding check_client_secret
  secret_accepted client secret =
      not (is_confidential client.client_type) || check_client_secret crypto client (some secret)

  unfoldable pub token_for_client :
      {R : Type 0}
      → Option Client
      → String
      → String
      → Dict String
      → ℕ
      → Draw
      → Draw
      → Store
      → Outcome R TokenResponse × Store
  unfolding token_client_credentials token_authorization_code token_refresh_token secret_accepted
      allows_grant
  token_for_client none grant secret kw now d1 d2 s =
      (raises (rejection "invalid_client" "Unknown or inactive client_id." 401), s)
  token_for_client (some client) grant secret kw now d1 d2 s =
      if not (allows_grant client grant)
      then (
        raises (
            rejection "unauthorized_client" "This client is not allowed to use this grant_type."
              400),
        s,
      )
      else if grant == "client_credentials"
      then token_client_credentials client secret kw now d1 s
      else if not (secret_accepted client secret)
      then (raises (rejection "invalid_client" "Invalid client credentials." 401), s)
      else if grant == "authorization_code"
      then token_authorization_code client kw now d1 d2 s
      else token_refresh_token client kw now d1 s

  unfoldable pub token :
      {R : Type 0}
      → List Client
      → Option String
      → Dict String
      → ℕ
      → Draw
      → Draw
      → Store
      → Outcome R TokenResponse × Store
  unfolding token_for_client extract_client_credentials find_client
  token clients header kw now d1 d2 s =
      let (client_id, secret) = extract_client_credentials crypto decode header kw in
      if not (contains (param kw "grant_type") supported_grants)
      then (raises (rejection "unsupported_grant_type" "Unsupported grant_type." 400), s)
      else if client_id == ""
      then (raises (rejection "invalid_client" "client_id is required." 401), s)
      else token_for_client (find_client client_id clients) (param kw "grant_type") secret kw now d1
          d2 s
