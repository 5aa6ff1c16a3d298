-- ===== src/Oauth/Credentials.antt =====
-- The grant `client_credentials` of ssi_rest_api_auth_oauth2/controllers/main.py.
use ssi_rest_api.Prelude.{
  ℕ, String, ◌≡◌, refl, true, not, Option, none, some, List, ◌∷◌, ◌==◌, arith, ap, sym, if_keeps,
  if_keeps-cases,
}
use ssi_rest_api.Prelude.Dict.{Dict}
use ssi_rest_api.Dispatcher.Arguments.{Outcome, returns}
use ssi_rest_api.Oauth.{Crypto, Draw, Client, Token, Store, access, issued_token, issue}
use ssi_rest_api.Oauth.Checks.{check_client_secret, is_confidential, allows_grant}
use ssi_rest_api.Oauth.Endpoints.{
  TokenResponse, param, find_client, extract_client_credentials, issue_access, scope_or,
  token_client_credentials, token_for_client, token,
}
use ssi_rest_api.Oauth.Grants.{IsRegistered, find_client-IsRegistered}
use ssi_rest_api.Oauth.Branches.{of_not}

module _ (crypto : Crypto) (decode : String → Option String) (clients : List Client) (s : Store)
    (header : Option String) (kw : Dict String) (now : ℕ) (d1 d2 : Draw) where
  abbrev presented : String × String
  presented = extract_client_credentials crypto decode header kw

  -- The answer `r` and the store `t` of a token that a client is given for itself.
  pub record IsOwnGrant (r : TokenResponse) (t : Store) : Type 0 where
    pub client : Client
    pub registered : IsRegistered presented.0 clients client
    pub granted : allows_grant client "client_credentials" ≡ true
    pub is_confidential_client : is_confidential client.client_type ≡ true
    pub secret : check_client_secret crypto client (some presented.1) ≡ true
    pub no_refresh_token : r.refresh_token ≡ none
    pub issued : Token
    pub stored : t.tokens ≡ issued ∷ s.tokens
    pub no_user : issued.user_id ≡ none
    pub is_access : issued.token_type ≡ access
    pub own : issued.client ≡ client.id

  abbrev OwnIfReturned : TokenResponse → Store → Outcome (Unit {0}) TokenResponse × Store → Type 0
  OwnIfReturned r t o = (o.0 ≡ returns r) → (o.1 ≡ t) → IsOwnGrant r t

  issue_access-IsOwnGrant :
      (client : Client) (scope : String) (r : TokenResponse) (t : Store)
      → IsRegistered presented.0 clients client
      → allows_grant client "client_credentials" ≡ true
      → is_confidential client.client_type ≡ true
      → check_client_secret crypto client (some presented.1) ≡ true
      → OwnIfReturned r t (issue_access crypto decode client none scope now d1 s)
  unfolding issue_access issue issued_token
  issue_access-IsOwnGrant client scope r t known granted kind secret h k = record {
    client = client;
    registered = known;
    granted = granted;
    is_confidential_client = kind;
    secret = secret;
    no_refresh_token = ground arith;
    issued =
        issued_token crypto s.next_id client none access (some scope) client.access_token_lifetime
          none none now d1;
    stored = ap (λ u. u.tokens) (sym k);
    no_user = refl;
    is_access = refl;
    own = refl;
  }

  token_for_client-IsOwnGrant :
      (c : Option Client) (r : TokenResponse) (t : Store)
      → find_client presented.0 clients ≡ c
      → OwnIfReturned r t
          (token_for_client crypto decode c "client_credentials" presented.1 kw now d1 d2 s)
  unfolding token_for_client token_client_credentials
  token_for_client-IsOwnGrant none r t found = λ h k. absurd (cc)
  token_for_client-IsOwnGrant (some client) r t found =
      if_keeps-cases (OwnIfReturned r t) (not (allows_grant client "client_credentials"))
        (λ e h k. absurd (cc))
        (λ a.
          if_keeps-cases (OwnIfReturned r t) (not (is_confidential client.client_type))
            (λ e h k. absurd (cc))
            (λ b.
              if_keeps-cases (OwnIfReturned r t)
                (not (check_client_secret crypto client (some presented.1))) (λ e h k. absurd (cc))
                (λ c.
                  issue_access-IsOwnGrant client (scope_or (param kw "scope") client.scope_codes) r
                    t (find_client-IsRegistered presented.0 clients client found) (of_not _ a)
                    (of_not _ b) (of_not _ c))))

  -- A client is given a token for itself only if it is active, confidential, may use the grant
  -- and has shown its secret; the answer has no refresh token, and the one row that is added is
  -- an access token of the client without a user.
  pub token-IsOwnGrant :
      (r : TokenResponse) (t : Store)
      → param kw "grant_type" ≡ "client_credentials"
      → token crypto decode {R = Unit {0}} clients header kw now d1 d2 s ≡ (returns r, t)
      → IsOwnGrant r t
  unfolding token
  token-IsOwnGrant r t grant h = checked (ap (λ o. o.0) h) (ap (λ o. o.1) h)
    where
      checked : OwnIfReturned r t (token crypto decode {R = Unit {0}} clients header kw now d1 d2 s)
      checked = rw grant (
          if_keeps (OwnIfReturned r t) (presented.0 == "") (λ k l. absurd (cc))
            (token_for_client-IsOwnGrant (find_client presented.0 clients) r t refl))
