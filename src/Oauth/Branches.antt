-- ===== src/Oauth/Branches.antt =====
-- The endpoints of ssi_rest_api_auth_oauth2/controllers/main.py, branch by branch: a predicate holds of
-- their outcome if it holds of every rejection, which leaves the store, and of what each grant does.
use ssi_rest_api.Prelude.{
  ℕ, String, ◌≡◌, refl, Bool, true, false, ◌||◌, not, arith, Option, none, some, List, [], ◌∷◌,
  ◌==◌, contains, if_keeps, if_keeps-cases, eq_iff,
}
use ssi_rest_api.Prelude.Dict.{Dict, lookup}
use ssi_rest_api.Errors.{Exception}
use ssi_rest_api.Dispatcher.Arguments.{Outcome, returns, raises}
use ssi_rest_api.Oauth.{
  Crypto, Draw, Client, Token, TokenType, Store, code, issue, lookup_token, lookup_for_revoke,
  auth_code_lifetime_seconds,
}
use ssi_rest_api.Oauth.Checks.{
  allows_grant, has_redirect_uri, check_client_secret, is_confidential, supported_grants,
}
use ssi_rest_api.Oauth.Endpoints.{
  Redirect, TokenResponse, param, find_client, extract_client_credentials, authorize_client,
  authorize, token_authorization_code, token_client_credentials, token_refresh_token, issue_access,
  refreshed, secret_accepted, token_for_client, token, revoke_found, revoke_for_client, revoke,
  method_or_default, scope_or,
}

pub of_not : (b : Bool) → not b ≡ false → b ≡ true
of_not b h = ground arith

-- What `authorize` checks of a request and the client that it names.
pub record IsAccepted (kw : Dict String) (client : Client) : Type 0 where
  pub registered : has_redirect_uri client (param kw "redirect_uri") ≡ true
  pub response_type : param kw "response_type" ≡ "code"
  pub granted : allows_grant client "authorization_code" ≡ true
  pub challenged : (param kw "code_challenge" == "") ≡ false
  pub known_method :
      contains (method_or_default (param kw "code_challenge_method")) ("S256" ∷ "plain" ∷ []) ≡ true

-- What `token` checks of the client before it redeems a code.
pub record IsEntitled (crypto : Crypto) (decode : String → Option String) (clients : List Client)
    (header : Option String) (kw : Dict String) (client : Client) : Type 0 where
  pub found :
      find_client (extract_client_credentials crypto decode header kw).0 clients ≡ some client
  pub granted : allows_grant client "authorization_code" ≡ true
  pub accepted :
      is_confidential client.client_type ≡ true
      → check_client_secret crypto client
          (some (extract_client_credentials crypto decode header kw).1)
        ≡ true

secret_accepted-checked :
    (crypto : Crypto) (decode : String → Option String) (client : Client) (secret : String)
    → secret_accepted crypto decode client secret ≡ true
    → is_confidential client.client_type ≡ true
    → check_client_secret crypto client (some secret) ≡ true
unfolding secret_accepted
secret_accepted-checked crypto decode client secret h k = ground arith

module _ (crypto : Crypto) (decode : String → Option String) {R : Type 0} (s : Store) where
  module _ (P : Outcome R TokenResponse × Store → Type 0)
      (fails : (e : Exception R) → P (raises e, s)) (kw : Dict String) (now : ℕ)
      (d1 d2 : Draw) where
    token_for_client-code :
        (c : Option Client) (secret : String)
        → ((client : Client)
            → c ≡ some client
            → allows_grant client "authorization_code" ≡ true
            → secret_accepted crypto decode client secret ≡ true
            → P (token_authorization_code crypto decode client kw now d1 d2 s))
        → P (token_for_client crypto decode c "authorization_code" secret kw now d1 d2 s)
    unfolding token_for_client
    token_for_client-code none secret exchanges = fails _
    token_for_client-code (some client) secret exchanges =
        if_keeps-cases P (not (allows_grant client "authorization_code")) (λ e. fails _)
          (λ g.
            if_keeps-cases P (not (secret_accepted crypto decode client secret)) (λ e. fails _)
              (λ a. exchanges client refl (of_not _ g) (of_not _ a)))

    pub token-code :
        (clients : List Client) (header : Option String)
        → ((client : Client)
            → IsEntitled crypto decode clients header kw client
            → P (token_authorization_code crypto decode client kw now d1 d2 s))
        → param kw "grant_type" ≡ "authorization_code"
        → P (token crypto decode clients header kw now d1 d2 s)
    unfolding token
    token-code clients header exchanges grant = rw grant (
        if_keeps P ((extract_client_credentials crypto decode header kw).0 == "") (fails _) (
          token_for_client-code
            (find_client (extract_client_credentials crypto decode header kw).0 clients)
            (extract_client_credentials crypto decode header kw).1
            (λ client f g a. exchanges client (record {
              found = f;
              granted = g;
              accepted = secret_accepted-checked crypto decode client _ a;
            }))))

    token_for_client-cases :
        (c : Option Client) (grant secret : String)
        → ((client : Client) → P (token_authorization_code crypto decode client kw now d1 d2 s))
        → ((client : Client) (secret : String)
            → P (token_client_credentials crypto decode client secret kw now d1 s))
        → ((client : Client) → P (token_refresh_token crypto decode client kw now d1 s))
        → P (token_for_client crypto decode c grant secret kw now d1 d2 s)
    unfolding token_for_client
    token_for_client-cases none grant secret exchanges own refreshes = fails _
    token_for_client-cases (some client) grant secret exchanges own refreshes =
        if_keeps P (not (allows_grant client grant)) (fails _) (
          if_keeps P (grant == "client_credentials") (own client secret) (
            if_keeps P (not (secret_accepted crypto decode client secret)) (fails _)
              (if_keeps P (grant == "authorization_code") (exchanges client) (refreshes client))))

    pub token-cases :
        (clients : List Client) (header : Option String)
        → ((client : Client) → P (token_authorization_code crypto decode client kw now d1 d2 s))
        → ((client : Client) (secret : String)
            → P (token_client_credentials crypto decode client secret kw now d1 s))
        → ((client : Client) → P (token_refresh_token crypto decode client kw now d1 s))
        → P (token crypto decode clients header kw now d1 d2 s)
    unfolding token
    token-cases clients header exchanges own refreshes =
        if_keeps P (not (contains (param kw "grant_type") supported_grants)) (fails _) (
          if_keeps P ((extract_client_credentials crypto decode header kw).0 == "") (fails _) (
            token_for_client-cases
              (find_client (extract_client_credentials crypto decode header kw).0 clients)
              (param kw "grant_type") (extract_client_credentials crypto decode header kw).1
              exchanges own refreshes))

  module _ (P : Outcome R TokenResponse × Store → Type 0)
      (fails : (e : Exception R) → P (raises e, s)) (kw : Dict String) (now : ℕ) (d : Draw) where
    pub client_credentials-cases :
        (client : Client) (secret : String)
        → P (
            issue_access crypto decode client none
              (scope_or (param kw "scope") client.scope_codes)
              now
              d
              s)
        → P (token_client_credentials crypto decode client secret kw now d s)
    unfolding token_client_credentials
    client_credentials-cases client secret issues =
        if_keeps P (not (is_confidential client.client_type)) (fails _)
          (if_keeps P (not (check_client_secret crypto client (some secret))) (fails _) issues)

    pub refresh_token-cases :
        (client : Client)
        → ((row : Token) → P (issue_access crypto decode client row.user_id row.scope now d s))
        → P (token_refresh_token crypto decode client kw now d s)
    unfolding token_refresh_token
    refresh_token-cases client issues = if_keeps P (param kw "refresh_token" == "") (fails _) (
        found
          (lookup_token crypto (param kw "refresh_token") TokenType.refresh (some client) now s))
      where
        found : (row : Option Token) → P (refreshed crypto decode client row now d s)
        found none = fails _
        found (some row) = issues row

  module _ (P : Outcome R Redirect × Store → Type 0) (fails : (e : Exception R) → P (raises e, s))
      (user : ℕ) (kw : Dict String) (now : ℕ) (d : Draw) where
    -- The code of `authorize`, issued to a client that `redirect_uri` is registered for.
    abbrev pub issued_code : Client → String × Store
    issued_code client =
        issue crypto client (some user) code (lookup "scope" kw) auth_code_lifetime_seconds
          (lookup "code_challenge" kw) (some (method_or_default (param kw "code_challenge_method")))
          now d s

    abbrev pub redirected : Client → Outcome R Redirect × Store
    redirected client = (
      returns (record {
        redirect_uri = param kw "redirect_uri";
        code = (issued_code client).0;
        state = lookup "state" kw;
      }),
      (issued_code client).1,
    )

    authorize_client-cases :
        (c : Option Client)
        → ((client : Client) → c ≡ some client → IsAccepted kw client → P (redirected client))
        → P (authorize_client crypto decode c user kw now d s)
    unfolding authorize_client
    authorize_client-cases none issues = fails _
    authorize_client-cases (some client) issues =
        let method = method_or_default (param kw "code_challenge_method") in
        if_keeps-cases P (not (has_redirect_uri client (param kw "redirect_uri"))) (λ e. fails _)
          (λ a.
            if_keeps-cases P (not (param kw "response_type" == "code")) (λ e. fails _)
              (λ b.
                if_keeps-cases P (not (allows_grant client "authorization_code")) (λ e. fails _)
                  (λ c.
                    if_keeps-cases P (param kw "code_challenge" == "") (λ e. fails _)
                      (λ d.
                        if_keeps-cases P (not (contains method ("S256" ∷ "plain" ∷ [])))
                          (λ e. fails _)
                          (λ e. issues client refl (record {
                            registered = of_not _ a;
                            response_type =
                                (eq_iff (param kw "response_type") "code").0 (of_not _ b);
                            granted = of_not _ c;
                            challenged = d;
                            known_method = of_not _ e;
                          }))))))

    pub authorize-cases :
        (clients : List Client)
        → ((client : Client)
            → find_client (param kw "client_id") clients ≡ some client
            → IsAccepted kw client
            → P (redirected client))
        → P (authorize crypto decode clients user kw now d s)
    unfolding authorize
    authorize-cases clients issues =
        if_keeps P ((param kw "client_id" == "") || (param kw "redirect_uri" == "")) (fails _)
          (authorize_client-cases (find_client (param kw "client_id") clients) issues)

  module _ (P : Outcome R (Unit {0}) × Store → Type 0) (fails : (e : Exception R) → P (raises e, s))
      (kw : Dict String) where
    revoke_for_client-cases :
        (c : Option Client) (secret : String)
        → ((client : Client)
            → P (returns tt, revoke_found (lookup_for_revoke crypto (param kw "token") client s) s))
        → P (revoke_for_client crypto decode c secret kw s)
    unfolding revoke_for_client
    revoke_for_client-cases none secret revokes = fails _
    revoke_for_client-cases (some client) secret revokes =
        if_keeps P (not (secret_accepted crypto decode client secret)) (fails _) (revokes client)

    pub revoke-cases :
        (clients : List Client) (header : Option String)
        → ((client : Client)
            → P (returns tt, revoke_found (lookup_for_revoke crypto (param kw "token") client s) s))
        → P (revoke crypto decode clients header kw s)
    unfolding revoke
    revoke-cases clients header revokes = if_keeps P (param kw "token" == "") (fails _) (
        if_keeps P ((extract_client_credentials crypto decode header kw).0 == "") (fails _) (
          revoke_for_client-cases
            (find_client (extract_client_credentials crypto decode header kw).0 clients)
            (extract_client_credentials crypto decode header kw).1 revokes))
