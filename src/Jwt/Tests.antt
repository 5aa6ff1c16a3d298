-- ===== src/Jwt/Tests.antt =====
-- The provider and its cache run on one issuer, and the theorems applied to it.
use ssi_rest_api.Jwt.{
  PyJwt, gives, throws, jwt_error, foreign, Issuer, User, State, Algorithm, MatchField, is_hmac,
  is_segment, looks_like_jwt, jwt_extract,
}
use ssi_rest_api.Jwt.Cache.{get_client}
use ssi_rest_api.Jwt.Clients.{IsPyJwt, client_renewed}
use ssi_rest_api.Jwt.Reuse.{client_reused}
use ssi_rest_api.Jwt.Events.{Event, created, written, requested, run}
use ssi_rest_api.Jwt.Issuers.{Vals, write}
use ssi_rest_api.Jwt.KeySources.{HaveKeySources, run-HaveKeySources}
use ssi_rest_api.Jwt.Provider.{jwt_verify, invalid_token, uncaught}
use ssi_rest_api.Jwt.Claims.{IsAccepted, answer}
use ssi_rest_api.Jwt.Verified.{jwt_verify-IsAccepted}
use ssi_rest_api.Jwt.Escapes.{IsRefusal, jwt_verify-IsRefusal}
use ssi_rest_api.Prelude.{
  ℕ, suc, String, ◌≡◌, refl, Bool, true, false, not, Option, none, some, List, [], ◌∷◌, ◌≤◌, ◌==◌,
  arith, eq_iff, false≢true, if◌then◌else◌,
}
use ssi_rest_api.Prelude.Dict.{Dict, lookup}
use ssi_rest_api.Prelude.Int.{pos}
use ssi_rest_api.Prelude.Members.{Memᴰ}
use ssi_rest_api.Dispatcher.Arguments.{returns, raises}
use ssi_rest_api.Auth.{RestAuthResult}
use ssi_rest_api.Auth.Extraction.{bearer_extract}

abbrev claim_equals : Option String → String → Bool
claim_equals none s = false
claim_equals (some v) s = v == s

-- A client is its URL and how often it was asked; only the new URL has the key.
abbrev jwt : PyJwt String String (String × ℕ)
jwt = record {
  new_client = λ url ttl. (url, 0);
  uri = λ c. c.0;
  get_signing_key =
      λ now token c. (if c.0 == "new" then gives "public" else throws jwt_error, (c.0, suc c.1));
  secret = λ s. s;
  peek = λ token. if token == "a.b.c" then gives (("iss", "idp") ∷ []) else throws jwt_error;
  decode = λ checks now token.
      if checks.key == "public" then gives (("sub", "ann") ∷ []) else throws (foreign "TypeError");
  urlsafe_b64decode = λ s. if s == "a===" then some [] else none;
  object_keys = λ bytes. some ("typ" ∷ "alg" ∷ []);
  equals = claim_equals;
  search_error = λ claim. none;
  is_truthy = λ v. not (v == "");
}

jwt-IsPyJwt : IsPyJwt jwt
jwt-IsPyJwt = record { uri_new = λ url ttl. refl; uri_kept = λ now token c. refl }

abbrev idp : Issuer
idp = record {
  id = 1;
  active = true;
  issuer = "idp";
  audience = "odoo";
  algorithm = Algorithm.rs256;
  jwks_url = "old";
  shared_secret = "";
  user_claim = "sub";
  user_match_field = MatchField.login;
  leeway = pos 0;
  profile_id = some 4;
}

abbrev start_state : State (String × ℕ)
start_state = record {
  issuers = idp ∷ [];
  next_id = 2;
  users = record { id = 9; active = true; login = "ann"; email = "" } ∷ [];
  clients = λ n. none;
  next_serial = 0;
}

abbrev new_url : Vals
new_url = record {
  active = none;
  issuer = none;
  audience = none;
  algorithm = none;
  jwks_url = some "new";
  shared_secret = none;
  user_claim = none;
  user_match_field = none;
  leeway = none;
  profile_id = none;
}

abbrev edits : List Event
edits = written (1 ∷ []) new_url ∷ requested 5 "a.b.c" ∷ []

abbrev no_url : Vals
no_url = record new_url { jwks_url = some "" }

abbrev found : RestAuthResult
found = record { uid = 9; scheme = "jwt"; profile_ids = 4 ∷ []; scopes = []; expires_at = none }

shape_tests :
    (is_segment "aZ0_-" ≡ true)
    × (is_segment "ab\n" ≡ true)
    × (is_segment "" ≡ false)
    × (is_segment "a+b" ≡ false)
    × (looks_like_jwt jwt "a.b.c" ≡ true)
    × (looks_like_jwt jwt "b.b.c" ≡ false)
    × (looks_like_jwt jwt "a.b" ≡ false)
    × (jwt_extract jwt (some "Bearer a.b.c ") ≡ some "a.b.c")
    × (jwt_extract jwt (some "Bearer sot_a") ≡ none)
unfolding jwt_extract looks_like_jwt is_segment bearer_extract
shape_tests = (refl, refl, refl, refl, refl, refl, refl, refl, refl)

write_tests :
    ((write (1 ∷ []) no_url start_state).0 ≡ false)
    × ((write (2 ∷ []) no_url start_state).0 ≡ true)
    × ((write (1 ∷ []) new_url start_state).0 ≡ true)
unfolding write
write_tests = (refl, refl, refl)

-- With the old URL the key set has no key: the exception is not the 401 of the credential.
verify_tests :
    ((jwt_verify {R = ℕ} jwt 5 "a.b.c" (run jwt edits start_state)).0 ≡ returns found)
    × ((jwt_verify {R = ℕ} jwt 5 "x" start_state).0 ≡ raises invalid_token)
unfolding run jwt_verify
verify_tests = (refl, refl)

client_renewed_example :
    (jwt.uri
        (get_client jwt 1 "new" (run jwt edits (write (1 ∷ []) new_url start_state).1)).0.client
      ≡ "new")
    × (0 ≤ (get_client jwt 1 "new" (run jwt edits (write (1 ∷ []) new_url start_state).1)).0.serial)
client_renewed_example =
    client_renewed jwt 1 (1 ∷ []) new_url edits "new" start_state jwt-IsPyJwt refl refl
      write_tests.2

abbrev requests : List Event
requests = requested 5 "a.b.c" ∷ created idp ∷ requested 6 "a.b.c" ∷ []

client_reused_example :
    ((get_client jwt 1 "old" (run jwt requests (get_client jwt 1 "old" start_state).1)).0.serial
      ≡ (get_client jwt 1 "old" start_state).0.serial)
    × ((get_client jwt 1 "old" (run jwt requests (get_client jwt 1 "old" start_state).1)).1
        ≡ run jwt requests (get_client jwt 1 "old" start_state).1)
client_reused_example =
    client_reused jwt 1 "old" requests start_state (λ same. refl, tt) (omega arith)
      (tt, (tt, (tt, tt)))

jwt_verify-IsAccepted_example :
    (i : Issuer) × (u : User) × (peeked : Dict String) × Memᴰ i (run jwt edits start_state).issuers
    × Memᴰ u (run jwt edits start_state).users
    × (jwt.peek "a.b.c" ≡ gives peeked)
    × (i.active ≡ true)
    × (jwt.equals (lookup "iss" peeked) i.issuer ≡ true)
    × IsAccepted jwt 5 "a.b.c" i u
    × (found ≡ answer jwt 5 "a.b.c" i u)
jwt_verify-IsAccepted_example =
    jwt_verify-IsAccepted jwt 5 "a.b.c" jwt-IsPyJwt ℕ edits start_state found (λ n. refl)
      verify_tests.0

-- The key set of the old URL has no key, which no handler catches.
no_key_test :
    (jwt_verify {R = ℕ} jwt 5 "a.b.c" (run jwt [] start_state)).0 ≡ raises (uncaught jwt_error)
unfolding run jwt_verify
no_key_test = refl

jwt_verify-IsRefusal_example :
    IsRefusal jwt 5 "a.b.c" jwt-IsPyJwt ℕ (run jwt [] start_state).issuers (uncaught jwt_error)
jwt_verify-IsRefusal_example =
    jwt_verify-IsRefusal jwt 5 "a.b.c" jwt-IsPyJwt ℕ [] start_state (uncaught jwt_error) (λ n. refl)
      no_key_test

run-HaveKeySources_example : HaveKeySources jwt (run jwt edits start_state)
unfolding is_hmac
run-HaveKeySources_example =
    run-HaveKeySources jwt edits start_state
      ((λ e. absurd (false≢true e), λ e same. ground (arith, eq_iff "old" "")), tt)
