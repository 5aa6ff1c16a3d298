-- ===== src/ApiKey/Tests.antt =====
-- Keys of two users, with a hash that marks the text.
use ssi_rest_api.ApiKey.{apikey_provider, key_result, invalid_credential, apikey_extract}
use ssi_rest_api.ApiKey.Events.{
  Event, Form, created, edited, generated, unlinked, authenticated, no_keys,
}
use ssi_rest_api.ApiKey.Events
use ssi_rest_api.ApiKey.Spec
use ssi_rest_api.ApiKey.Spec.{verify_text, no_grants}
use ssi_rest_api.ApiKey.Rows.{IsExact}
use ssi_rest_api.ApiKey.Refinement.{apikey_provider-refines}
use ssi_rest_api.Dispatcher.Arguments.{returns, raises}
use ssi_rest_api.Oauth.{Crypto, Draw}
use ssi_rest_api.Prelude.{
  ℕ, String, ◌≡◌, refl, true, false, Bool, none, some, List, [], ◌∷◌, ◌==◌, eq-false_of_ne,
}

abbrev marks : String → String → Bool
marks raw String.[] = false
marks raw (String.◌∷◌ c stored) = stored == raw

abbrev toy : Crypto
toy = record { hash = λ salt raw. String.◌∷◌ "#" raw; verify = marks; s256 = λ verifier. verifier }

toy-IsExact : IsExact toy
toy-IsExact = record {
  verifies = λ salt raw other. refl;
  not_empty = λ salt raw. eq-false_of_ne (String.◌∷◌ "#" raw) "" (λ h. cc);
}

abbrev draw : String → Draw
draw text = record { token_urlsafe = text; salt = "" }

abbrev form : ℕ → Form
form user = record { user_id = user; profile_id = 3; expiration_date = some 1000; active = true }

-- The key of user 7 is made, and made again; user 8's is made and used.
abbrev history : List Event
history =
    created (form 7)
    ∷ generated ((1, draw "first-of-seven") ∷ [])
    ∷ created (form 8)
    ∷ generated ((2, draw "first-of-eight") ∷ [])
    ∷ generated ((1, draw "second-of-seven") ∷ [])
    ∷ authenticated "sak_first-of-eight" false true 40
    ∷ []

apikey_provider-refines_example :
    ((apikey_provider {R = Unit {0}} toy none false true 50).rest_auth_verify "sak_second-of-seven"
      (Events.run toy history no_keys)).0
    ≡ returns (key_result 7 3)
unfolding verify_text Spec.run
apikey_provider-refines_example =
    apikey_provider-refines toy toy-IsExact history none false true 50 "sak_second-of-seven"

-- The first key of user 7 has been replaced.
replaced_test :
    verify_text {R = Unit {0}} "sak_first-of-seven" 50 (Spec.run history no_grants)
    ≡ raises invalid_credential
unfolding verify_text Spec.run
replaced_test = refl

expired_test :
    ((apikey_provider {R = Unit {0}} toy none false true 1000).rest_auth_verify
      "sak_second-of-seven"
      (Events.run toy history no_keys)).0
    ≡ raises invalid_credential
unfolding apikey_provider Events.run
expired_test = refl

extract_test : apikey_extract (some "  sak_x ") ≡ some "sak_x"
unfolding apikey_extract
extract_test = refl
