-- ===== src/Oauth/Tests/Rows.antt =====
-- The rows of the store: issued, collected, revoked, and the ones that the endpoint token adds.
use ssi_rest_api.Prelude.{false, String, ◌≡◌, refl, none, some, [], ◌∷◌, arith, ne-of_eq_false}
use ssi_rest_api.Prelude.Int.{pos}
use ssi_rest_api.Prelude.Dict.{Dict, lookup}
use ssi_rest_api.Dispatcher.Arguments.{Outcome, returns}
use ssi_rest_api.Oauth.{
  confidential, Store, Token, Client, code, access, lookup_token, gc_expired, issue,
}
use ssi_rest_api.Prelude.Text.{slice_to}
use ssi_rest_api.Oauth.Endpoints.{revoke_for_client, TokenResponse, token}
use ssi_rest_api.Oauth.Events.{collected, run}
use ssi_rest_api.Oauth.Expiry.{lookup_token-gc_expired}
use ssi_rest_api.Oauth.Access.{IsUsable, access_token-IsUsable}
use ssi_rest_api.Oauth.Credentials.{IsOwnGrant, token-IsOwnGrant}
use ssi_rest_api.Oauth.Revoked.{IsHeld, revoked_for_good}
use ssi_rest_api.Oauth.Issue.{lookup_token-issue, row}
use ssi_rest_api.Oauth.Tests.{
  toy, decode, app, empty, draw, token_kw, after_authorize, answer, exchange_run,
  toy-IsCollisionFree, toy-IsSound,
}

lookup_token-gc_expired_example :
    lookup_token toy "sot_c" code none 120 (gc_expired 110 after_authorize.store)
    ≡ lookup_token toy "sot_c" code none 120 after_authorize.store
lookup_token-gc_expired_example =
    lookup_token-gc_expired toy "sot_c" code none 110 120 after_authorize.store (omega arith)

abbrev issued : String × Store
issued = issue toy app (some 7) access (some "read") (pos 3600) none none 100 (draw "a") empty.store

abbrev issued_row : Token
issued_row =
    row toy app (some 7) access (some "read") (pos 3600) none none 100 (draw "a") empty.store

lookup_token-issue_example :
    (lookup_token toy issued.0 access (some app) 200 issued.1 ≡ some issued_row)
    × (lookup_token toy issued.0 access none 200 issued.1 ≡ some issued_row)
lookup_token-issue_example =
    lookup_token-issue toy app (some 7) access (some "read") (pos 3600) none none 100 (draw "a")
      empty.store 200 toy-IsSound refl

-- The store after the first exchange.
abbrev after_exchange : Store
after_exchange =
    (token toy decode {R = Unit {0}} after_authorize.clients none token_kw 110 (draw "a") (draw "r")
      after_authorize.store).1

token_run :
    token toy decode {R = Unit {0}} after_authorize.clients none token_kw 110
      (draw "a")
      (draw "r")
      after_authorize.store
    ≡ (returns answer, after_exchange)
token_run = λ i. (exchange_run i, after_exchange)

access_token-IsUsable_example :
    IsUsable toy decode 1 after_authorize.clients none after_authorize.store token_kw 110
      (draw "a")
      (draw "r")
      answer
      after_exchange
unfolding lookup
access_token-IsUsable_example =
    access_token-IsUsable toy decode 1 after_authorize.clients none after_authorize.store token_kw
      110 (draw "a") (draw "r") answer after_exchange toy-IsSound refl token_run

abbrev own_row : Token
own_row = record {
  id = 2;
  client = 1;
  user_id = some 7;
  token_index = "sot_a";
  token_hash = "#sot_a";
  token_type = access;
  scope = "read";
  expiration_date = pos 3700;
  revoked = false;
  code_challenge = none;
  code_challenge_method = none;
}

abbrev held_store : Store
held_store = record { tokens = own_row ∷ []; next_id = 3 }

abbrev revoke_kw : Dict String
revoke_kw = ("token", "sot_a") ∷ []

abbrev revoke_outcome : Outcome (Unit {0}) (Unit {0}) × Store
revoke_outcome = revoke_for_client toy decode (some app) "" revoke_kw held_store

found_before : lookup_token toy "sot_a" access none 200 held_store ≡ some own_row
unfolding lookup_token
found_before = refl

revoke_run : revoke_outcome.0 ≡ returns tt
unfolding revoke_for_client
revoke_run = refl

held_store-IsHeld : IsHeld toy decode "sot_a" app 2 held_store
unfolding slice_to
held_store-IsHeld = (λ h. record { same_row = refl; same_client = refl; indexed = refl }, tt)

revoked_for_good_example :
    lookup_token toy "sot_a" access none 200
      (run toy decode
        (collected 150 ∷ [])
        (record { clients = app ∷ []; store = revoke_outcome.1 })).store
    ≡ none
unfolding lookup
revoked_for_good_example =
    revoked_for_good toy decode "sot_a" app 2 "" revoke_kw held_store revoke_outcome.1 (app ∷ [])
      (collected 150 ∷ []) access none 200 toy-IsCollisionFree refl (ne-of_eq_false "sot_a" "" refl)
      held_store-IsHeld (λ i. (revoke_run i, revoke_outcome.1)) (tt, tt) refl

abbrev service : Client
service = record app {
  client_id = "svc";
  client_type = confidential;
  client_secret_hash = "#pw";
  grant_types = "client_credentials";
}

abbrev service_kw : Dict String
service_kw = ("grant_type", "client_credentials") ∷ []

abbrev service_outcome : Outcome (Unit {0}) TokenResponse × Store
service_outcome =
    token toy decode (service ∷ []) (some "Basic svc:pw") service_kw 100 (draw "a") (draw "r")
      empty.store

abbrev service_answer : TokenResponse
service_answer = record {
  access_token = "sot_a";
  expires_in = pos 3600;
  scope = "read";
  refresh_token = none;
}

service_run : service_outcome.0 ≡ returns service_answer
unfolding token lookup
service_run = refl

token-IsOwnGrant_example :
    IsOwnGrant toy decode
      (service ∷ [])
      empty.store
      (some "Basic svc:pw")
      service_kw
      100
      (draw "a")
      (draw "r")
      service_answer
      service_outcome.1
unfolding lookup
token-IsOwnGrant_example =
    token-IsOwnGrant toy decode (service ∷ []) empty.store (some "Basic svc:pw") service_kw 100
      (draw "a") (draw "r") service_answer service_outcome.1 refl
      (λ i. (service_run i, service_outcome.1))
