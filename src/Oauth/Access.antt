-- ===== src/Oauth/Access.antt =====
-- From the endpoint token of ssi_rest_api_auth_oauth2/controllers/main.py to the provider of
-- ssi_rest_api_auth_oauth2/models/ssi_rest_auth_oauth2.py.
use ssi_rest_api.Prelude.{
  ℕ, String, ◌≡◌, refl, ap, sym, ◌∙◌, Bool, true, false, Option, none, some, List, [], ◌∷◌, ◌==◌,
  arith, if_keeps,
}
use ssi_rest_api.Prelude.Int.{plus_ℤ, exceeds}
use ssi_rest_api.Prelude.Dict.{Dict}
use ssi_rest_api.Dispatcher.Arguments.{Outcome, returns, raises}
use ssi_rest_api.Oauth.{
  Crypto, Draw, Client, Token, Store, code, access, refresh, raw_value, issued_token, issue,
  lookup_token, revoke_rows, same_type,
}
use ssi_rest_api.Oauth.Endpoints.{
  TokenResponse, param, exchange, exchange_found, token_authorization_code, token,
}
use ssi_rest_api.Oauth.Branches.{IsEntitled, token-code}
use ssi_rest_api.Oauth.Events.{State}
use ssi_rest_api.Oauth.Lookup.{IsAnswer, lookup_token-IsAnswer}
use ssi_rest_api.Oauth.Issue.{IsSound, lookup_token-issue, lookup_token-other, row}
use ssi_rest_api.Oauth.Provider.{oauth2_provider, verified, token_result}

module _ (crypto : Crypto) (decode : String → Option String) (public_user : ℕ)
    (clients : List Client) (header : Option String) (s : Store) (kw : Dict String) (now : ℕ)
    (d1 d2 : Draw) where
  abbrev database : Store → State
  database t = record { clients = clients; store = t }

  -- The store `t` after the answer `r`: the access token in it authenticates, until its lifetime is
  -- over, the user that the redeemed code was issued for, with the scope of the code.
  pub record IsUsable (r : TokenResponse) (t : Store) : Type 0 where
    pub client : Client
    pub entitled : IsEntitled crypto decode clients header kw client
    pub redeemed : Token
    pub answer : IsAnswer crypto (param kw "code") code (some client) now s redeemed
    pub issued : Token
    pub same_user : issued.user_id ≡ redeemed.user_id
    pub same_scope : issued.scope ≡ redeemed.scope
    pub own_client : issued.client ≡ client.id
    pub authenticates :
        (request : Option String) (later : ℕ)
        → exceeds (plus_ℤ now client.access_token_lifetime) later ≡ true
        → (oauth2_provider {R = Unit {0}} crypto public_user request later).rest_auth_verify
            r.access_token
            (database t)
          ≡ (returns (token_result public_user clients issued), database t)

  abbrev UsableIfReturned :
      TokenResponse → Store → Outcome (Unit {0}) TokenResponse × Store → Type 0
  UsableIfReturned r t o = (o.0 ≡ returns r) → (o.1 ≡ t) → IsUsable r t

  -- The row of the access token that a redemption of `old` creates.
  abbrev access_row : Client → Token → Token
  access_row client old =
      row crypto client old.user_id access (some old.scope) client.access_token_lifetime none none
        now d1 (revoke_rows (old.id ∷ []) s)

  exchange-returns :
      (client : Client) (old : Token) (r : TokenResponse)
      → (exchange crypto decode {R = Unit {0}} client old (returns true) now d1 d2 s).0 ≡ returns r
      → r.access_token ≡ raw_value d1
  unfolding exchange issue
  exchange-returns client old r h = ground arith

  lookup_token-exchange :
      (client : Client) (old : Token) (later : ℕ)
      → IsSound crypto
      → exceeds (plus_ℤ now client.access_token_lifetime) later ≡ true
      → lookup_token crypto
          (raw_value d1)
          access
          none
          later
          (exchange crypto decode {R = Unit {0}} client old (returns true) now d1 d2 s).1
        ≡ some (access_row client old)
  unfolding exchange same_type
  lookup_token-exchange client old later sound fresh =
      let consumed = revoke_rows (old.id ∷ []) s in
      let first =
        issue crypto client old.user_id access (some old.scope) client.access_token_lifetime none
          none now d1 consumed in
      lookup_token-other crypto client old.user_id refresh (some old.scope)
        client.refresh_token_lifetime none none now d2 first.1 (raw_value d1) access none later
        other
      ∙ (lookup_token-issue crypto client old.user_id access (some old.scope)
          client.access_token_lifetime none none now d1 consumed later sound fresh).1
    where
      other : same_type refresh access ≡ false
      other = refl

  exchange-IsUsable :
      (client : Client) (old : Token) (o : Outcome (Unit {0}) Bool) (r : TokenResponse) (t : Store)
      → IsSound crypto
      → IsEntitled crypto decode clients header kw client
      → IsAnswer crypto (param kw "code") code (some client) now s old
      → UsableIfReturned r t (exchange crypto decode client old o now d1 d2 s)
  unfolding exchange oauth2_provider verified issued_token same_type
  exchange-IsUsable client old (raises e) r t sound n a h k = absurd (cc)
  exchange-IsUsable client old (returns false) r t sound n a h k = absurd (cc)
  exchange-IsUsable client old (returns true) r t sound n a h k = record {
    client = client;
    entitled = n;
    redeemed = old;
    answer = a;
    issued = access_row client old;
    same_user = refl;
    same_scope = refl;
    own_client = refl;
    authenticates = λ request later fresh.
        let text = exchange-returns client old r h in
        let found = lookup_token-exchange client old later sound fresh in
        ap (λ o. (verified public_user clients o, database t))
          (ap (λ q. lookup_token crypto q access none later t) text
            ∙ (ap (λ u. lookup_token crypto (raw_value d1) access none later u) (sym k) ∙ found));
  }

  -- If a hash verifies against its own text and is not empty, and token answers the redemption of
  -- a code with tokens, then the request names a registered client that may use the grant and, if
  -- it is confidential, has shown its secret; and until that client's access token lifetime is
  -- over, the access token authenticates the user that the code was issued for, with the scope of
  -- the code, and is that client's, as the code was.
  pub access_token-IsUsable :
      (r : TokenResponse) (t : Store)
      → IsSound crypto
      → param kw "grant_type" ≡ "authorization_code"
      → token crypto decode {R = Unit {0}} clients header kw now d1 d2 s ≡ (returns r, t)
      → IsUsable r t
  unfolding token_authorization_code exchange_found
  access_token-IsUsable r t sound grant h =
      token-code crypto decode s (UsableIfReturned r t) (λ e k l. absurd (cc)) kw now d1 d2 clients
        header
        (λ client entitled.
          if_keeps (UsableIfReturned r t) (param kw "code" == "") (λ k l. absurd (cc))
            (found client entitled (lookup_token crypto (param kw "code") code (some client) now s)
              refl))
        grant (ap (λ o. o.0) h) (ap (λ o. o.1) h)
    where
      found :
          (client : Client)
          → IsEntitled crypto decode clients header kw client
          → (old : Option Token)
          → lookup_token crypto (param kw "code") code (some client) now s ≡ old
          → UsableIfReturned r t
              (exchange_found crypto decode {R = Unit {0}} client old kw now d1 d2 s)
      found client n none e k l = absurd (cc)
      found client n (some old) e k l =
          exchange-IsUsable client old _ r t sound n
            (lookup_token-IsAnswer crypto (param kw "code") code (some client) now s old e) k l
