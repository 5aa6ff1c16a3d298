-- ===== src/Oauth/Endpoints/Authorize.antt =====
-- ssi_rest_api_auth_oauth2/controllers/main.py: the endpoint authorize, up to its response, which is in
-- Oauth/Endpoints/Location.
use ssi_rest_api.Prelude.{
  ℕ, String, ◌||◌, not, Option, none, some, List, [], ◌∷◌, ◌==◌, contains, if◌then◌else◌,
}
use ssi_rest_api.Prelude.Dict.{Dict, lookup}
use ssi_rest_api.Dispatcher.Arguments.{Outcome, returns, raises}
use ssi_rest_api.Oauth.{Crypto, Draw, Client, code, Store, issue, auth_code_lifetime_seconds}
use ssi_rest_api.Oauth.Checks.{allows_grant, has_redirect_uri}
use ssi_rest_api.Oauth.Endpoints.Requests.{rejection, find_client, param}

-- What `_append_query` is called with: the registered address, the code and the state.
pub record Redirect : Type 0 where
  pub redirect_uri : String
  pub code : String
  pub state : Option String

abbrev pub method_or_default : String → String
method_or_default m = if m == "" then "S256" else m

module _ (crypto : Crypto) (decode : String → Option String) where
  unfoldable pub authorize_client :
      {R : Type 0} → Option Client → ℕ → Dict String → ℕ → Draw → Store → Outcome R Redirect × Store
  unfolding has_redirect_uri allows_grant issue
  authorize_client none user kw now d s =
      (raises (rejection "invalid_client" "Unknown or inactive client_id." 400), s)
  authorize_client (some client) user kw now d s =
      let method = method_or_default (param kw "code_challenge_method") in
      if not (has_redirect_uri client (param kw "redirect_uri"))
      then (
        raises (rejection "invalid_request" "redirect_uri is not registered for this client." 400),
        s,
      )
      else if not (param kw "response_type" == "code")
      then (raises (rejection "unsupported_response_type" "response_type must be 'code'." 400), s)
      else if not (allows_grant client "authorization_code")
      then (
        raises (
            rejection "unauthorized_client"
              "This client is not allowed to use the authorization_code grant." 400),
        s,
      )
      else if param kw "code_challenge" == ""
      then (raises (rejection "invalid_request" "code_challenge is required." 400), s)
      else if not (contains method ("S256" ∷ "plain" ∷ []))
      then (
        raises (rejection "invalid_request" "code_challenge_method must be S256 or plain." 400),
        s,
      )
      else let (raw, after) =
          issue crypto client (some user) code (lookup "scope" kw) auth_code_lifetime_seconds
            (lookup "code_challenge" kw) (some method) now d s in
        (
          returns (record {
            redirect_uri = param kw "redirect_uri";
            code = raw;
            state = lookup "state" kw;
          }),
          after,
        )

  unfoldable pub authorize :
      {R : Type 0} → List Client → ℕ → Dict String → ℕ → Draw → Store → Outcome R Redirect × Store
  unfolding authorize_client find_client
  authorize clients user kw now d s =
      if (param kw "client_id" == "") || (param kw "redirect_uri" == "")
      then (raises (rejection "invalid_request" "client_id and redirect_uri are required." 400), s)
      else authorize_client (find_client (param kw "client_id") clients) user kw now d s
