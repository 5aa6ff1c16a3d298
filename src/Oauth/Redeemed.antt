-- ===== src/Oauth/Redeemed.antt =====
-- How authorization codes are redeemed: `authorize` and `_token_authorization_code` of
-- ssi_rest_api_auth_oauth2/controllers/main.py over the rows of ssi_rest_oauth_token.
use ssi_rest_api.Prelude.{
  ℕ, String, ◌≡◌, ◌≢◌, refl, Bool, true, false, Option, none, some, List, [], ◌∷◌, ◌==◌, arith, All,
  any_of, nat_eq, if_keeps, if_keeps-cases,
}
use ssi_rest_api.Prelude.Dict.{Dict}
use ssi_rest_api.Prelude.Members.{All-map, All-mem}
use ssi_rest_api.Dispatcher.Arguments.{Outcome, returns, raises}
use ssi_rest_api.Oauth.{
  Crypto, Draw, Client, Token, Store, code, access, refresh, raw_value, issued_token, issue,
  hash_matches, lookup_token, revoke_rows,
}
use ssi_rest_api.Oauth.Endpoints.{
  Redirect, TokenResponse, param, exchange, exchange_found, token_authorization_code, token,
}
use ssi_rest_api.Oauth.Branches.{token-code, authorize-cases}
use ssi_rest_api.Oauth.Events.{State, Event, authorized, exchanged, apply, run, Avoids}
use ssi_rest_api.Oauth.Lookup.{IsAnswer, lookup_token-IsAnswer}
use ssi_rest_api.Oauth.Unusable.{lookup_token-Lives}
use ssi_rest_api.Oauth.Spent.{IsCollisionFree, Reaches, alive, Lives, Reaches-Lives, run-Lives}

-- A request to `/oauth2/token`.
pub record Exchange : Type 0 where
  pub header : Option String
  pub kw : Dict String
  pub now : ℕ
  pub d1 : Draw
  pub d2 : Draw

abbrev pub event : Exchange → Event
event x = exchanged x.header x.kw x.now x.d1 x.d2

-- The request asks for the tokens of the authorization code `raw`.
abbrev pub Redeems : String → Exchange → Type 0
Redeems raw x = (param x.kw "grant_type" ≡ "authorization_code") × (param x.kw "code" ≡ raw)

module _ (crypto : Crypto) (decode : String → Option String) (raw : String) where
  abbrev pub response : Exchange → State → Outcome (Unit {0}) TokenResponse
  response x st = (token crypto decode st.clients x.header x.kw x.now x.d1 x.d2 st.store).0

  -- No row is a code that `raw` can still be used for.
  abbrev pub IsSpent : Store → Type 0
  IsSpent s = Lives crypto decode raw (λ n. ⊥) code s

  -- Only a row with the id can be such a code.
  abbrev IsSole : ℕ → Store → Type 0
  IsSole i s = Lives crypto decode raw (λ n. n ≡ i) code s

  unused :
      (i : ℕ) (ts : List Token)
      → All (λ t. alive crypto decode raw code t ≡ true → ⊥) ts
      → All (λ t. alive crypto decode raw code t ≡ true → t.id ≡ i) ts
  unused i [] h = tt
  unused i (t ∷ ts) (k, h) = (λ e. absurd (k e), unused i ts h)

  authorized-IsSole :
      (st : State) (user : ℕ) (kw : Dict String) (now : ℕ) (d : Draw)
      → IsSpent st.store
      → IsSole st.store.next_id (apply crypto decode (authorized user kw now d) st).store
  unfolding apply issue issued_token
  authorized-IsSole st user kw now d h =
      authorize-cases crypto decode st.store
        (λ (o : Outcome (Unit {0}) Redirect × Store). IsSole st.store.next_id o.1)
        (λ e. unused _ _ h) user kw now d st.clients (λ client k l. (λ e. refl, unused _ _ h))

  answer-alive :
      (client : Option Client) (now : ℕ) (s : Store) (row : Token)
      → IsAnswer crypto raw code client now s row
      → alive crypto decode raw code row ≡ true
  unfolding hash_matches
  answer-alive client now s row a = rw (a.of_type, a.unrevoked, a.verified)

  revoke-IsSpent :
      (i : ℕ) (client : Option Client) (now : ℕ) (s : Store) (row : Token)
      → IsSole i s
      → IsAnswer crypto raw code client now s row
      → IsSpent (revoke_rows (row.id ∷ []) s)
  unfolding revoke_rows
  revoke-IsSpent i client now s row sole a =
      All-map (λ t. alive crypto decode raw code t ≡ true → t.id ≡ i)
        (λ t. alive crypto decode raw code t ≡ true → ⊥) _
        (λ t k.
          if_keeps-cases (λ u. alive crypto decode raw code u ≡ true → ⊥)
            (any_of (nat_eq t.id) (row.id ∷ [])) (λ yes_ e. ground arith)
            (λ other e.
              let same_row = k e in
              let found =
                All-mem (λ u. alive crypto decode raw code u ≡ true → u.id ≡ i) a.stored sole
                  (answer-alive client now s row a) in
              ground arith))
        s.tokens sole

  module _ (kw : Dict String) (now : ℕ) (d1 d2 : Draw) (s : Store) where
    -- What a redemption that succeeds leaves.
    abbrev SpentIfReturned : Outcome (Unit {0}) TokenResponse × Store → Type 0
    SpentIfReturned o = (r : TokenResponse) → o.0 ≡ returns r → IsSpent o.1

    exchange-spends :
        (i : ℕ) (client : Client) (row : Token) (o : Outcome (Unit {0}) Bool)
        → IsCollisionFree crypto
        → raw_value d1 ≢ raw
        → raw_value d2 ≢ raw
        → IsSole i s
        → IsAnswer crypto raw code (some client) now s row
        → SpentIfReturned (exchange crypto decode client row o now d1 d2 s)
    unfolding exchange
    exchange-spends i client row (raises e) free fresh1 fresh2 sole a r h = absurd (cc)
    exchange-spends i client row (returns false) free fresh1 fresh2 sole a r h = absurd (cc)
    exchange-spends i client row (returns true) free fresh1 fresh2 sole a r h =
        Reaches-Lives crypto decode raw (λ n. ⊥) code free
          (Reaches.issues client row.user_id refresh (some row.scope) client.refresh_token_lifetime
            none none now d2 fresh2
            (Reaches.issues client row.user_id access (some row.scope) client.access_token_lifetime
              none none now d1 fresh1 Reaches.same))
          (revoke-IsSpent i (some client) now s row sole a)

    authorization_code-spends :
        (i : ℕ) (client : Client)
        → IsCollisionFree crypto
        → param kw "code" ≡ raw
        → raw_value d1 ≢ raw
        → raw_value d2 ≢ raw
        → IsSole i s
        → SpentIfReturned (token_authorization_code crypto decode client kw now d1 d2 s)
    unfolding token_authorization_code exchange_found
    authorization_code-spends i client free is_raw fresh1 fresh2 sole =
        if_keeps SpentIfReturned (param kw "code" == "") (λ r h. absurd (cc))
          (found (lookup_token crypto (param kw "code") code (some client) now s) refl)
      where
        found :
            (row : Option Token)
            → lookup_token crypto (param kw "code") code (some client) now s ≡ row
            → SpentIfReturned (exchange_found crypto decode client row kw now d1 d2 s)
        found none e r h = absurd (cc)
        found (some row) e r h =
            exchange-spends i client row _ free fresh1 fresh2 sole
              (lookup_token-IsAnswer crypto raw code (some client) now s row (rw is_raw at e)) r h

    authorization_code-refused :
        (client : Client)
        → param kw "code" ≡ raw
        → IsSpent s
        → (r : TokenResponse)
        → (token_authorization_code crypto decode {R = Unit {0}} client kw now d1 d2 s).0
          ≢ returns r
    unfolding token_authorization_code exchange_found
    authorization_code-refused client is_raw spent r =
        if_keeps (λ (o : Outcome (Unit {0}) TokenResponse × Store). o.0 ≢ returns r)
          (param kw "code" == "") (λ h. cc)
          (refused (lookup_token crypto (param kw "code") code (some client) now s)
            (rw is_raw (lookup_token-Lives crypto decode raw code (some client) now s spent)))
      where
        refused :
            (row : Option Token)
            → row ≡ none
            → (exchange_found crypto decode {R = Unit {0}} client row kw now d1 d2 s).0 ≢ returns r
        refused none e h = cc
        refused (some row) e h = absurd (cc)

  -- A code is redeemed once: if no row holds the value raw as a usable code, then after
  -- authorize, whatever it issues, and any events in which raw is not issued, a request that
  -- redeems raw and is answered with tokens is the only one: after any further such events, no
  -- request that redeems raw is answered with tokens, if a hash verifies against no other text
  -- than its own.
  pub code_redeemed_once :
      (st : State) (user : ℕ) (kw : Dict String) (now : ℕ) (d : Draw) (before later : List Event)
      (x y : Exchange) (r r2 : TokenResponse)
      → IsCollisionFree crypto
      → IsSpent st.store
      → All (Avoids raw) before
      → All (Avoids raw) (event x ∷ later)
      → Redeems raw x
      → Redeems raw y
      → response x (run crypto decode before (apply crypto decode (authorized user kw now d) st))
        ≡ returns r
      → response y (
          run crypto decode
            (event x ∷ later)
            (run crypto decode before (apply crypto decode (authorized user kw now d) st)))
        ≢ returns r2
  unfolding run apply
  code_redeemed_once st user kw now d before later x y r r2 free spent f1 ((fx1, fx2), f2) rx ry
        ok =
      let issued = apply crypto decode (authorized user kw now d) st in
      let ready = run crypto decode before issued in
      let sole =
        run-Lives crypto decode raw (λ n. n ≡ st.store.next_id) code before issued free f1
          (authorized-IsSole st user kw now d spent) in
      let redeemed =
        token-code crypto decode ready.store (SpentIfReturned x.kw x.now x.d1 x.d2 ready.store)
          (λ e r h. absurd (cc)) x.kw x.now x.d1 x.d2 ready.clients x.header
          (λ client entitled.
            authorization_code-spends x.kw x.now x.d1 x.d2 ready.store st.store.next_id client free
              rx.1 fx1 fx2 sole)
          rx.0 r ok in
      let after = run crypto decode later (apply crypto decode (event x) ready) in
      let still = run-Lives crypto decode raw (λ n. ⊥) code later _ free f2 redeemed in
      token-code crypto decode after.store
        (λ (o : Outcome (Unit {0}) TokenResponse × Store). o.0 ≢ returns r2) (λ e h. cc) y.kw y.now
        y.d1 y.d2 after.clients y.header
        (λ client entitled.
          authorization_code-refused y.kw y.now y.d1 y.d2 after.store client ry.1 still r2)
        ry.0
