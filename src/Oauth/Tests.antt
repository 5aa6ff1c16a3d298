-- ===== src/Oauth/Tests.antt =====
-- Tests of Oauth, and the use of its theorems on concrete requests.
mod Rows
mod Urls
use ssi_rest_api.Prelude.{
  false, String, ◌≡◌, ◌≢◌, refl, true, not, Option, none, some, [], ◌∷◌, All, ◌==◌, arith, eq_iff,
  eq_refl, ne-of_eq_false, eq-false_of_ne, ap,
}
use ssi_rest_api.Prelude.Int.{pos}
use ssi_rest_api.Prelude.Dict.{Dict, lookup}
use ssi_rest_api.Dispatcher.Arguments.{Outcome, returns, raises}
use ssi_rest_api.Oauth.{
  confidential, Store, Token, Crypto, Draw, Client, public, code, access, lookup_token, gc_expired,
  raw_value, issue,
}
use ssi_rest_api.Oauth.Checks.{allows_grant}
use ssi_rest_api.Prelude.Text.{slice_to}
use ssi_rest_api.Oauth.Endpoints.{
  revoke_for_client, Redirect, TokenResponse, authorize, token, extract_client_credentials,
  rejection,
}
use ssi_rest_api.Oauth.Events.{State, authorized, collected, apply, run, Avoids}
use ssi_rest_api.Oauth.Spent.{IsCollisionFree}
use ssi_rest_api.Oauth.Redeemed.{Exchange, event, response, code_redeemed_once}
use ssi_rest_api.Oauth.Expiry.{lookup_token-gc_expired}
use ssi_rest_api.Oauth.Access.{IsUsable, access_token-IsUsable}
use ssi_rest_api.Oauth.Credentials.{IsOwnGrant, token-IsOwnGrant}
use ssi_rest_api.Oauth.Revoked.{IsHeld, revoked_for_good}
use ssi_rest_api.Oauth.Provider.{words}
use ssi_rest_api.Oauth.Issue.{IsSound, lookup_token-issue, row}
use ssi_rest_api.Oauth.Grants.{IsGranted, authorize-IsGranted, IsExchanged, token-IsExchanged}

-- A hash that is its text after a mark, ignoring the salt.
abbrev toy : Crypto
toy = record {
  hash = λ salt raw. String.◌∷◌ "#" raw;
  verify = λ raw stored. stored == String.◌∷◌ "#" raw;
  s256 = λ verifier. verifier;
}

abbrev decode : String → Option String
decode encoded = some encoded

abbrev app : Client
app = record {
  id = 1;
  active = true;
  client_id = "app";
  client_secret_hash = "";
  client_type = public;
  redirect_uris = "https://app/cb" ∷ [];
  grant_types = "authorization_code, refresh_token";
  scope_codes = "read" ∷ [];
  access_token_lifetime = pos 3600;
  refresh_token_lifetime = pos 1209600;
  profile_id = none;
}

abbrev empty : State
empty = record { clients = app ∷ []; store = record { tokens = []; next_id = 1 } }

abbrev draw : String → Draw
draw text = record { token_urlsafe = text; salt = "s" }

abbrev authorize_kw : Dict String
authorize_kw =
    ("client_id", "app")
    ∷ ("redirect_uri", "https://app/cb")
    ∷ ("response_type", "code")
    ∷ ("code_challenge", "v")
    ∷ ("scope", "read")
    ∷ ("state", "x")
    ∷ []

abbrev token_kw : Dict String
token_kw =
    ("grant_type", "authorization_code")
    ∷ ("client_id", "app")
    ∷ ("code", "sot_c")
    ∷ ("code_verifier", "v")
    ∷ []

abbrev first_exchange : Exchange
first_exchange = record { header = none; kw = token_kw; now = 110; d1 = draw "a"; d2 = draw "r" }

abbrev second_exchange : Exchange
second_exchange = record { header = none; kw = token_kw; now = 120; d1 = draw "b"; d2 = draw "t" }

abbrev after_authorize : State
after_authorize = apply toy decode (authorized 7 authorize_kw 100 (draw "c")) empty

abbrev redirect : Redirect
redirect = record { redirect_uri = "https://app/cb"; code = "sot_c"; state = some "x" }

abbrev answer : TokenResponse
answer = record {
  access_token = "sot_a";
  expires_in = pos 3600;
  scope = "read";
  refresh_token = some "sot_r";
}

authorize_run :
    (authorize toy decode {R = Unit {0}} empty.clients 7 authorize_kw 100 (draw "c") empty.store).0
    ≡ returns redirect
unfolding authorize lookup
authorize_run = refl

exchange_run : response toy decode "sot_c" first_exchange after_authorize ≡ returns answer
unfolding apply token lookup
exchange_run = refl

second_run :
    response toy decode "sot_c" second_exchange
      (apply toy decode (event first_exchange) after_authorize)
    ≡ raises (rejection "invalid_grant" "Unknown, expired, or already used authorization code." 400)
unfolding apply token lookup
second_run = refl

basic_header : extract_client_credentials toy decode (some "Basic app:pw") [] ≡ ("app", "pw")
unfolding extract_client_credentials
basic_header = refl

grants_are_stripped : allows_grant app "refresh_token" ≡ true
unfolding allows_grant
grants_are_stripped = refl

scope_words : words " read  write\n" ≡ "read" ∷ "write" ∷ []
unfolding words
scope_words = refl

toy-IsCollisionFree : IsCollisionFree toy
toy-IsCollisionFree raw salt other h =
    let same = (eq_iff (String.◌∷◌ "#" other) (String.◌∷◌ "#" raw)).0 h in cc

toy-IsSound : IsSound toy
toy-IsSound = record {
  own = λ salt raw. eq_refl (String.◌∷◌ "#" raw);
  present = λ salt raw. ap not (eq-false_of_ne (String.◌∷◌ "#" raw) "" (λ h. cc));
}

Avoids-first : All (Avoids "sot_c") (event first_exchange ∷ collected 115 ∷ [])
unfolding raw_value
Avoids-first =
    ((ne-of_eq_false "sot_a" "sot_c" refl, ne-of_eq_false "sot_r" "sot_c" refl), (tt, tt))

ready_run :
    response toy decode "sot_c" first_exchange
      (run toy decode [] (apply toy decode (authorized 7 authorize_kw 100 (draw "c")) empty))
    ≡ returns answer
unfolding run
ready_run = exchange_run

code_redeemed_once_example :
    response toy decode "sot_c" second_exchange (
      run toy decode
        (event first_exchange ∷ collected 115 ∷ [])
        (run toy decode [] (apply toy decode (authorized 7 authorize_kw 100 (draw "c")) empty)))
    ≢ returns answer
unfolding lookup
code_redeemed_once_example =
    code_redeemed_once toy decode "sot_c" empty 7 authorize_kw 100 (draw "c") []
      (collected 115 ∷ []) first_exchange second_exchange answer answer toy-IsCollisionFree tt tt
      Avoids-first (refl, refl) (refl, refl) ready_run

token-IsExchanged_example :
    IsExchanged toy decode after_authorize.clients after_authorize.store none token_kw 110
      (draw "a")
      (draw "r")
      answer
unfolding lookup
token-IsExchanged_example =
    token-IsExchanged toy decode after_authorize.clients after_authorize.store none token_kw 110
      (draw "a") (draw "r") answer refl exchange_run
