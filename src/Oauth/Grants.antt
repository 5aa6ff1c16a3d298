-- ===== src/Oauth/Grants.antt =====
-- When the endpoints of ssi_rest_api_auth_oauth2/controllers/main.py issue anything, and what.
use ssi_rest_api.Prelude.{
  ℕ, String, ◌≡◌, refl, ap, sym, ◌∙◌, Bool, true, false, ◌&&◌, Option, none, some, List, ◌==◌,
  arith, if_keeps, eq_iff,
}
use ssi_rest_api.Prelude.Dict.{Dict, lookup}
use ssi_rest_api.Prelude.Members.{Memᴰ}
use ssi_rest_api.Dispatcher.Arguments.{Outcome, returns, raises}
use ssi_rest_api.Oauth.{Crypto, Draw, Client, Token, Store, code, raw_value, issue, lookup_token}
use ssi_rest_api.Oauth.Checks.{check_pkce, has_redirect_uri}
use ssi_rest_api.Oauth.Endpoints.{
  Redirect, TokenResponse, param, find_client, exchange, exchange_found, token_authorization_code,
  token, authorize,
}
use ssi_rest_api.Oauth.Branches.{authorize-cases, token-code, IsAccepted, IsEntitled}
use ssi_rest_api.Oauth.Lookup.{IsAnswer, lookup_token-IsAnswer, first_where-some}

-- The registered, active client that a text names.
pub record IsRegistered (client_id : String) (clients : List Client) (c : Client) : Type 0 where
  pub stored : Memᴰ c clients
  pub same_id : c.client_id ≡ client_id
  pub active : c.active ≡ true

pub find_client-IsRegistered :
    (client_id : String) (clients : List Client) (c : Client)
    → find_client client_id clients ≡ some c
    → IsRegistered client_id clients c
unfolding find_client
find_client-IsRegistered client_id clients c h =
    let (m, e) = first_where-some (λ c. (c.client_id == client_id) && c.active) clients c h in
    record {
      stored = m;
      same_id = (eq_iff c.client_id client_id).0 (ground arith);
      active = ground arith;
    }

returns-Redirect :
    (o : Outcome (Unit {0}) Redirect) (a b : Redirect)
    → o ≡ returns a
    → o ≡ returns b
    → (a.redirect_uri ≡ b.redirect_uri) × (a.state ≡ b.state)
returns-Redirect o a b h k = (ground arith, ground arith)

module _ (crypto : Crypto) (decode : String → Option String) (clients : List Client)
    (s : Store) where
  -- A client that the redirection `r` may be sent for.
  pub record IsGranted (kw : Dict String) (r : Redirect) : Type 0 where
    pub client : Client
    pub registered : IsRegistered (param kw "client_id") clients client
    pub accepted : IsAccepted kw client
    pub same_uri : has_redirect_uri client r.redirect_uri ≡ true
    pub same_state : r.state ≡ lookup "state" kw

  -- `authorize` redirects only for an active client of the requested id, to an address registered for
  -- it, with the state of the request, if the client may use the grant, the response type is `code` and
  -- a challenge of a known method is given.
  pub authorize-IsGranted :
      (user : ℕ) (kw : Dict String) (now : ℕ) (d : Draw) (r : Redirect)
      → (authorize crypto decode {R = Unit {0}} clients user kw now d s).0 ≡ returns r
      → IsGranted kw r
  authorize-IsGranted user kw now d r =
      authorize-cases crypto decode s
        (λ (o : Outcome (Unit {0}) Redirect × Store). o.0 ≡ returns r → IsGranted kw r)
        (λ e h. absurd (cc)) user kw now d clients
        (λ client found accepted h.
          let (uri, state) = returns-Redirect _ _ r refl h in
          record {
            client = client;
            registered = find_client-IsRegistered (param kw "client_id") clients client found;
            accepted = accepted;
            same_uri = ap (λ q. has_redirect_uri client q) (sym uri) ∙ accepted.registered;
            same_state = sym state;
          })

  -- The row of the code that the answer `r` redeems, with the client that redeems it.
  pub record IsExchanged (header : Option String) (kw : Dict String) (now : ℕ) (d1 d2 : Draw)
      (r : TokenResponse) : Type 0 where
    pub client : Client
    pub entitled : IsEntitled crypto decode clients header kw client
    pub row : Token
    pub answer : IsAnswer crypto (param kw "code") code (some client) now s row
    pub proved : check_pkce crypto {R = Unit {0}} row (lookup "code_verifier" kw) ≡ returns true
    pub same_scope : r.scope ≡ row.scope
    pub access_raw : r.access_token ≡ raw_value d1
    pub refresh_raw : r.refresh_token ≡ some (raw_value d2)

  module _ (header : Option String) (kw : Dict String) (now : ℕ) (d1 d2 : Draw)
      (r : TokenResponse) where
    exchange-IsExchanged :
        (client : Client) (row : Token) (o : Outcome (Unit {0}) Bool)
        → IsEntitled crypto decode clients header kw client
        → IsAnswer crypto (param kw "code") code (some client) now s row
        → check_pkce crypto row (lookup "code_verifier" kw) ≡ o
        → (exchange crypto decode client row o now d1 d2 s).0 ≡ returns r
        → IsExchanged header kw now d1 d2 r
    unfolding exchange issue
    exchange-IsExchanged client row (raises e) entitled answer pkce h = absurd (cc)
    exchange-IsExchanged client row (returns false) entitled answer pkce h = absurd (cc)
    exchange-IsExchanged client row (returns true) entitled answer pkce h = record {
      client = client;
      entitled = entitled;
      row = row;
      answer = answer;
      proved = pkce;
      same_scope = ground arith;
      access_raw = ground arith;
      refresh_raw = ground arith;
    }

    -- token redeems a code only for the client that it was issued to, which may use the grant
    -- and, if it is confidential, has shown its secret; the code is stored, neither revoked nor
    -- expired, the verifier matches its challenge, and the answer carries its scope and the two
    -- tokens just issued.
    pub token-IsExchanged :
        param kw "grant_type" ≡ "authorization_code"
        → (token crypto decode {R = Unit {0}} clients header kw now d1 d2 s).0 ≡ returns r
        → IsExchanged header kw now d1 d2 r
    unfolding token_authorization_code exchange_found
    token-IsExchanged =
        token-code crypto decode s
          (λ (o : Outcome (Unit {0}) TokenResponse × Store).
            o.0 ≡ returns r → IsExchanged header kw now d1 d2 r)
          (λ e h. absurd (cc)) kw now d1 d2 clients header
          (λ client entitled.
            if_keeps
              (λ (o : Outcome (Unit {0}) TokenResponse × Store).
                o.0 ≡ returns r → IsExchanged header kw now d1 d2 r)
              (param kw "code" == "") (λ h. absurd (cc))
              (found client entitled
                (lookup_token crypto (param kw "code") code (some client) now s) refl))
      where
        found :
            (client : Client)
            → IsEntitled crypto decode clients header kw client
            → (row : Option Token)
            → lookup_token crypto (param kw "code") code (some client) now s ≡ row
            → (exchange_found crypto decode {R = Unit {0}} client row kw now d1 d2 s).0 ≡ returns r
            → IsExchanged header kw now d1 d2 r
        found client entitled none e h = absurd (cc)
        found client entitled (some row) e h =
            exchange-IsExchanged client row _ entitled
              (lookup_token-IsAnswer crypto (param kw "code") code (some client) now s row e) refl h
