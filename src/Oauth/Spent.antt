-- ===== src/Oauth/Spent.antt =====
-- Which rows of ssi_rest_oauth_token a raw value can still be used with, through any sequence of
-- requests and maintenance of ssi_rest_api_auth_oauth2.
use ssi_rest_api.Prelude.{
  ℕ, String, ◌≡◌, ◌≢◌, sym, Bool, true, false, ◌&&◌, not, Option, none, some, List, [], ◌∷◌, ◌==◌,
  arith, All, any_of, nat_eq, if_keeps,
}
use ssi_rest_api.Prelude.Int.{ℤ}
use ssi_rest_api.Prelude.Dict.{Dict, lookup}
use ssi_rest_api.Prelude.Members.{All-keep_if, All-map}
use ssi_rest_api.Dispatcher.Arguments.{Outcome, returns, raises}
use ssi_rest_api.Oauth.{
  Crypto, Draw, Client, Token, TokenType, Store, code, access, refresh, same_type, raw_value,
  issued_token, issue, hash_matches, lookup_token, revoke_rows, gc_expired,
  auth_code_lifetime_seconds,
}
use ssi_rest_api.Oauth.Endpoints.{
  TokenResponse, param, method_or_default, issue_access, exchange, exchange_found,
  token_authorization_code, token, revoke_found,
}
use ssi_rest_api.Oauth.Branches.{
  token-cases, client_credentials-cases, refresh_token-cases, authorize-cases, revoke-cases,
}
use ssi_rest_api.Oauth.Events.{
  State, Event, authorized, exchanged, revoked_by_client, revoked_by_hand, collected,
  clients_edited, client_deleted, drop_client, apply, run, Avoids,
}

-- A hash verifies against no other text than its own.
abbrev pub IsCollisionFree : Crypto → Type 0
IsCollisionFree crypto =
    (raw salt other : String) → crypto.verify raw (crypto.hash salt other) ≡ true → raw ≡ other

module _ (crypto : Crypto) (decode : String → Option String) (raw : String) where
  -- Stores that follow each other while no issue draws `raw`.
  pub data Reaches : Store → Store → Type 0 where
    same : {s : Store} → Reaches s s
    issues :
        {s t : Store} (client : Client) (user : Option ℕ) (type : TokenType) (scope : Option String)
        (lifetime : ℤ) (challenge method : Option String) (now : ℕ) (d : Draw)
        → raw_value d ≢ raw
        → Reaches s t
        → Reaches s (issue crypto client user type scope lifetime challenge method now d t).1
    revokes : {s t : Store} (ids : List ℕ) → Reaches s t → Reaches s (revoke_rows ids t)
    collects : {s t : Store} (now : ℕ) → Reaches s t → Reaches s (gc_expired now t)
    drops : {s t : Store} (id : ℕ) → Reaches s t → Reaches s (drop_client id t)

  -- `raw` can still be used as a code or token of the type.
  abbrev pub alive : TokenType → Token → Bool
  alive type t = same_type t.token_type type && (not t.revoked && hash_matches crypto raw t)

  -- Every row that `raw` can still be used with has an id in `P`.
  abbrev pub Lives : (ℕ → Type 0) → TokenType → Store → Type 0
  Lives P type s = All (λ t. alive type t ≡ true → P t.id) s.tokens

  alive-issued :
      (type : TokenType) (new : ℕ) (client : Client) (user : Option ℕ) (own : TokenType)
      (scope : Option String) (lifetime : ℤ) (challenge method : Option String) (now : ℕ) (d : Draw)
      → alive type (issued_token crypto new client user own scope lifetime challenge method now d)
        ≡ true
      → crypto.verify raw (crypto.hash d.salt (raw_value d)) ≡ true
  unfolding issued_token hash_matches
  alive-issued type new client user own scope lifetime challenge method now d h = ground arith

  pub Reaches-Lives :
      {s t : Store} (P : ℕ → Type 0) (type : TokenType)
      → IsCollisionFree crypto
      → Reaches s t
      → Lives P type s
      → Lives P type t
  unfolding issue revoke_rows gc_expired drop_client
  Reaches-Lives P type free same h = h
  Reaches-Lives P type free
        (issues {t} client user own scope lifetime challenge method now d fresh r) h =
      (
        λ e. absurd (
            fresh (
              sym (
                free raw d.salt (raw_value d) (
                  alive-issued type t.next_id client user own scope lifetime challenge method now d
                    e)))),
        Reaches-Lives P type free r h,
      )
  Reaches-Lives P type free (revokes ids r) h =
      All-map (λ t. alive type t ≡ true → P t.id) (λ t. alive type t ≡ true → P t.id) _
        (λ t k.
          if_keeps (λ u. alive type u ≡ true → P u.id) (any_of (nat_eq t.id) ids)
            (λ e. absurd (ground arith)) k)
        _ (Reaches-Lives P type free r h)
  Reaches-Lives P type free (collects now r) h =
      All-keep_if (λ t. alive type t ≡ true → P t.id) _ _ (Reaches-Lives P type free r h)
  Reaches-Lives P type free (drops id r) h =
      All-keep_if (λ t. alive type t ≡ true → P t.id) _ _ (Reaches-Lives P type free r h)

  module _ (R : Type 0) (s : Store) where
    issue_access-Reaches :
        (client : Client) (user : Option ℕ) (scope : String) (now : ℕ) (d : Draw)
        → raw_value d ≢ raw
        → Reaches s (issue_access crypto decode {R = R} client user scope now d s).1
    unfolding issue_access
    issue_access-Reaches client user scope now d fresh =
        issues client user access (some scope) client.access_token_lifetime none none now d fresh
          same

    exchange-Reaches :
        (client : Client) (row : Token) (o : Outcome R Bool) (now : ℕ) (d1 d2 : Draw)
        → raw_value d1 ≢ raw
        → raw_value d2 ≢ raw
        → Reaches s (exchange crypto decode client row o now d1 d2 s).1
    unfolding exchange
    exchange-Reaches client row (raises e) now d1 d2 fresh1 fresh2 = same
    exchange-Reaches client row (returns false) now d1 d2 fresh1 fresh2 = same
    exchange-Reaches client row (returns true) now d1 d2 fresh1 fresh2 =
        issues client row.user_id refresh (some row.scope) client.refresh_token_lifetime none none
          now d2 fresh2
          (issues client row.user_id access (some row.scope) client.access_token_lifetime none none
            now d1 fresh1 (revokes (row.id ∷ []) same))

    token_authorization_code-Reaches :
        (client : Client) (kw : Dict String) (now : ℕ) (d1 d2 : Draw)
        → raw_value d1 ≢ raw
        → raw_value d2 ≢ raw
        → Reaches s (token_authorization_code crypto decode {R = R} client kw now d1 d2 s).1
    unfolding token_authorization_code exchange_found
    token_authorization_code-Reaches client kw now d1 d2 fresh1 fresh2 =
        if_keeps (λ (o : Outcome R TokenResponse × Store). Reaches s o.1) (param kw "code" == "")
          same (found (lookup_token crypto (param kw "code") code (some client) now s))
      where
        found :
            (row : Option Token)
            → Reaches s (exchange_found crypto decode {R = R} client row kw now d1 d2 s).1
        found none = same
        found (some row) = exchange-Reaches client row _ now d1 d2 fresh1 fresh2

    token-Reaches :
        (clients : List Client) (header : Option String) (kw : Dict String) (now : ℕ) (d1 d2 : Draw)
        → raw_value d1 ≢ raw
        → raw_value d2 ≢ raw
        → Reaches s (token crypto decode {R = R} clients header kw now d1 d2 s).1
    token-Reaches clients header kw now d1 d2 fresh1 fresh2 =
        token-cases crypto decode s (λ (o : Outcome R TokenResponse × Store). Reaches s o.1)
          (λ e. same) kw now d1 d2 clients header
          (λ client. token_authorization_code-Reaches client kw now d1 d2 fresh1 fresh2)
          (λ client secret.
            client_credentials-cases crypto decode s
              (λ (o : Outcome R TokenResponse × Store). Reaches s o.1) (λ e. same) kw now d1 client
              secret (issue_access-Reaches client none _ now d1 fresh1))
          (λ client.
            refresh_token-cases crypto decode s
              (λ (o : Outcome R TokenResponse × Store). Reaches s o.1) (λ e. same) kw now d1 client
              (λ row. issue_access-Reaches client row.user_id row.scope now d1 fresh1))

  revoke_found-Reaches : (row : Option Token) (s : Store) → Reaches s (revoke_found row s)
  revoke_found-Reaches none s = same
  revoke_found-Reaches (some row) s = revokes (row.id ∷ []) same

  pub apply-Reaches :
      (e : Event) (st : State) → Avoids raw e → Reaches st.store (apply crypto decode e st).store
  unfolding apply
  apply-Reaches (authorized user kw now d) st fresh =
      authorize-cases crypto decode st.store (λ o. Reaches st.store o.1) (λ e. same) user kw now d
        st.clients
        (λ client k l.
          issues client (some user) code (lookup "scope" kw) auth_code_lifetime_seconds
            (lookup "code_challenge" kw)
            (some (method_or_default (param kw "code_challenge_method"))) now d fresh same)
  apply-Reaches (exchanged header kw now d1 d2) st (fresh1, fresh2) =
      token-Reaches (Unit {0}) st.store st.clients header kw now d1 d2 fresh1 fresh2
  apply-Reaches (revoked_by_client header kw) st fresh =
      revoke-cases crypto decode st.store (λ o. Reaches st.store o.1) (λ e. same) kw st.clients
        header (λ client. revoke_found-Reaches _ st.store)
  apply-Reaches (revoked_by_hand ids) st fresh = revokes ids same
  apply-Reaches (collected now) st fresh = collects now same
  apply-Reaches (clients_edited clients) st fresh = same
  apply-Reaches (client_deleted id) st fresh = drops id same

  pub run-Lives :
      (P : ℕ → Type 0) (type : TokenType) (es : List Event) (st : State)
      → IsCollisionFree crypto
      → All (Avoids raw) es
      → Lives P type st.store
      → Lives P type (run crypto decode es st).store
  unfolding run
  run-Lives P type [] st free fresh h = h
  run-Lives P type (e ∷ es) st free (first, fresh) h =
      run-Lives P type es (apply crypto decode e st) free fresh
        (Reaches-Lives P type free (apply-Reaches e st first) h)
