-- ===== src/Auth/Extraction.antt =====
-- Two providers that read the header `Authorization: Bearer ...` (`None` where it is missing):
-- ssi_rest_api/models/ssi_rest_auth_bearer.py and, for the tokens of
-- ssi_rest_api_auth_oauth2/models/ssi_rest_oauth_token.py,
-- ssi_rest_api_auth_oauth2/models/ssi_rest_auth_oauth2.py.
use ssi_rest_api.Prelude.{
  ℕ, String, ◌≡◌, refl, ap, ◌∙◌, Bool, true, false, Option, none, some, [], ◌∷◌, Bool-cases, inl,
  inr, if◌then◌else◌,
}
use ssi_rest_api.Prelude.Text.{strip, strip_prefix}
use ssi_rest_api.Errors.{Exception, rest_auth_error}
use ssi_rest_api.Dispatcher.Arguments.{Outcome, returns, raises}
use ssi_rest_api.Auth.{
  RestAuthResult, Provider, Session, auth_method, candidate_schemes, multiple_credentials,
}
use ssi_rest_api.Auth.Decision.{Scan, several_credentials}

abbrev is_found {ℓ} : {A : Type ℓ} → Option A → Bool
is_found none = false
is_found (some a) = true

-- `startswith(prefix)`
abbrev starts_with : String → String → Bool
starts_with prefix s = is_found (strip_prefix prefix s)

-- `TOKEN_PREFIX`
abbrev pub token_prefix : String
token_prefix = "sot_"

abbrev non_empty : String → Option String
non_empty String.[] = none
non_empty (String.◌∷◌ c s) = some (String.◌∷◌ c s)

-- The text behind `Bearer `, stripped; it is `None` where it is empty or the header is another one.
bearer_text : Option String → Option String
unfolding strip
bearer_text none = none
bearer_text (some text) = non_empty (strip text)

unfoldable pub bearer_extract : Option String → Option String
unfolding bearer_text strip_prefix
bearer_extract none = none
bearer_extract (some header) = bearer_text (strip_prefix "Bearer " header)

own_token : Option String → Option String
own_token none = none
own_token (some token) = if starts_with token_prefix token then some token else none

unfoldable pub oauth2_extract : Option String → Option String
unfolding own_token bearer_extract
oauth2_extract header = own_token (bearer_extract header)

own_token-some : (found : Option String) (t : String) → own_token found ≡ some t → found ≡ some t
unfolding own_token
own_token-some none t e = cc
own_token-some (some token) t e = elim (Bool-cases (starts_with token_prefix token)) [
  | inl own ↦ rw own at e
  | inr foreign ↦ let impossible = rw foreign at e in absurd (cc)
]

oauth2_extract-bearer :
    (header : Option String) (t : String)
    → oauth2_extract header ≡ some t
    → bearer_extract header ≡ some t
unfolding oauth2_extract
oauth2_extract-bearer header t h = own_token-some (bearer_extract header) t h

bearer_failed : {R : Type 0} → Exception R
bearer_failed = rest_auth_error "invalid_credential" "Invalid or expired API key." 401 []

plain_result : {W R : Type 0} → Option ℕ × W → Outcome R RestAuthResult × W
unfolding bearer_failed
plain_result (none, w) = (raises bearer_failed, w)
plain_result (some uid, w) = (
  returns
      (record { uid = uid; scheme = "bearer"; profile_ids = []; scopes = []; expires_at = none }),
  w,
)

-- `ssi_rest_auth_bearer`; `check` is the core's `res.users.apikeys._check_credentials`.
unfoldable pub bearer_provider :
    {W R : Type 0} → Option String → (String → W → Option ℕ × W) → Provider String W R
unfolding bearer_extract plain_result
bearer_provider header check = record {
  rest_auth_extract = returns (bearer_extract header);
  rest_auth_verify = λ token w. plain_result (check token w);
  rest_auth_challenge = returns "Bearer";
}

module _ {W R : Type 0} (env : String → Option (Provider String W R)) (header : Option String)
    (check : String → W → Option ℕ × W) where
  -- Another scheme that finds the token which `bearer` extracts cannot be open beside it.
  pub bearer_conflict :
      (code model : String) (other : Provider String W R) (t : String) (s : Session W)
      → env "ssi_rest_auth_bearer" ≡ some (bearer_provider header check)
      → env model ≡ some other
      → other.rest_auth_extract ≡ returns (some t)
      → bearer_extract header ≡ some t
      → auth_method env (("bearer", "ssi_rest_auth_bearer") ∷ (code, model) ∷ []) none s
        ≡ (raises multiple_credentials, s)
  unfolding bearer_provider candidate_schemes
  bearer_conflict code model other t s b o extracts found =
      several_credentials env _ none s
        (record { code = "bearer"; provider = bearer_provider header check; credential = t })
        (record { code = code; provider = other; credential = t }) []
        (Scan.take (record { same_code = refl; known = b; credential = ap returns found })
          (Scan.take (record { same_code = refl; known = o; credential = extracts }) Scan.done))

  -- On a route open to both schemes, a header with a token of the OAuth2 module makes authentication
  -- raise 400, verifying nothing, since the scheme `bearer` extracts the same token.
  pub oauth2_conflict :
      (oauth2 : Provider String W R) (t : String) (s : Session W)
      → env "ssi_rest_auth_bearer" ≡ some (bearer_provider header check)
      → env "ssi_rest_auth_oauth2" ≡ some oauth2
      → oauth2.rest_auth_extract ≡ returns (oauth2_extract header)
      → oauth2_extract header ≡ some t
      → auth_method env
          (("bearer", "ssi_rest_auth_bearer") ∷ ("oauth2", "ssi_rest_auth_oauth2") ∷ [])
          none
          s
        ≡ (raises multiple_credentials, s)
  oauth2_conflict oauth2 t s b o extracts found =
      bearer_conflict "oauth2" "ssi_rest_auth_oauth2" oauth2 t s b o (extracts ∙ ap returns found)
        (oauth2_extract-bearer header t found)
