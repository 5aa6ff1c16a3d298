-- ===== src/Oauth/Endpoints/Revoke.antt =====
-- ssi_rest_api_auth_oauth2/controllers/main.py: the endpoint revoke.
use ssi_rest_api.Prelude.{String, not, Option, none, some, List, [], ◌∷◌, ◌==◌, if◌then◌else◌}
use ssi_rest_api.Prelude.Dict.{Dict}
use ssi_rest_api.Dispatcher.Arguments.{Outcome, returns, raises}
use ssi_rest_api.Oauth.{Crypto, Client, Token, Store, lookup_for_revoke, revoke_rows}
use ssi_rest_api.Oauth.Endpoints.Requests.{
  rejection, find_client, param, extract_client_credentials,
}
use ssi_rest_api.Oauth.Endpoints.Tokens.{secret_accepted}

abbrev pub revoke_found : Option Token → Store → Store
revoke_found none s = s
revoke_found (some row) s = revoke_rows (row.id ∷ []) s

module _ (crypto : Crypto) (decode : String → Option String) where
  unfoldable pub revoke_for_client :
      {R : Type 0} → Option Client → String → Dict String → Store → Outcome R (Unit {0}) × Store
  unfolding revoke_rows lookup_for_revoke secret_accepted
  revoke_for_client none secret kw s =
      (raises (rejection "invalid_client" "Unknown or inactive client_id." 401), s)
  revoke_for_client (some client) secret kw s =
      if not (secret_accepted crypto decode client secret)
      then (raises (rejection "invalid_client" "Invalid client credentials." 401), s)
      else (returns tt, revoke_found (lookup_for_revoke crypto (param kw "token") client s) s)

  unfoldable pub revoke :
      {R : Type 0}
      → List Client
      → Option String
      → Dict String
      → Store
      → Outcome R (Unit {0}) × Store
  unfolding revoke_for_client extract_client_credentials find_client
  revoke clients header kw s =
      let (client_id, secret) = extract_client_credentials crypto decode header kw in
      if param kw "token" == ""
      then (raises (rejection "invalid_request" "token is required." 400), s)
      else if client_id == ""
      then (raises (rejection "invalid_client" "client_id is required." 401), s)
      else revoke_for_client (find_client client_id clients) secret kw s
