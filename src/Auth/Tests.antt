-- ===== src/Auth/Tests.antt =====
-- Tests of Auth, and the use of its theorems on concrete requests.
use ssi_rest_api.Prelude.{
  ℕ, suc, String, ◌≡◌, refl, true, false, Option, none, some, List, [], ◌∷◌, All, ◌==◌,
  if◌then◌else◌,
}
use ssi_rest_api.Prelude.Int.{pos}
use ssi_rest_api.Errors.{rest_auth_error, unclassified}
use ssi_rest_api.Dispatcher.Arguments.{returns, raises}
use ssi_rest_api.Auth.{
  RestAuthResult, Provider, SchemeRef, Session, Extracted, auth_method, candidate_schemes,
  internal_server_error,
}
use ssi_rest_api.Auth.Decision.{Scan, IsAuthenticated, auth_method-IsAuthenticated}
use ssi_rest_api.Auth.Failure.{IsExpected, auth_method-IsExpected}
use ssi_rest_api.Auth.Challenges.{IsKnown}
use ssi_rest_api.Auth.Extraction.{bearer_extract, oauth2_extract, bearer_provider}
use ssi_rest_api.Auth.Registry.{Scheme, Vals, Registry, get_active_schemes, read_active_schemes}
use ssi_rest_api.Auth.Coherence.{Event, read, created, written, run, get_active_schemes_fresh}

abbrev check : String → ℕ → Option ℕ × ℕ
check token w = (if token == "k1" then some 7 else none, suc w)

abbrev header_provider : Option String → Provider String ℕ ℕ
header_provider header = bearer_provider header check

abbrev oauth2 : Option String → Provider String ℕ ℕ
oauth2 header = record {
  rest_auth_extract = returns (oauth2_extract header);
  rest_auth_verify = λ token w. (raises (unclassified "not used"), w);
  rest_auth_challenge = returns "Bearer realm=\"ssi_rest\"";
}

abbrev broken : Provider String ℕ ℕ
broken = record {
  rest_auth_extract = raises (unclassified "a bug");
  rest_auth_verify = λ token w. (raises (unclassified "a bug"), w);
  rest_auth_challenge = returns "";
}

abbrev env_with : Option String → String → Option (Provider String ℕ ℕ)
env_with header model =
    if model == "ssi_rest_auth_bearer"
    then some (header_provider header)
    else if model == "ssi_rest_auth_oauth2"
    then some (oauth2 header)
    else if model == "broken"
    then some broken
    else none

abbrev bearer_ref : SchemeRef
bearer_ref = ("bearer", "ssi_rest_auth_bearer")

abbrev oauth2_ref : SchemeRef
oauth2_ref = ("oauth2", "ssi_rest_auth_oauth2")

abbrev both : List SchemeRef
both = bearer_ref ∷ oauth2_ref ∷ []

abbrev fresh : Session ℕ
fresh = record { uid = none; can_save = true; rest_auth = none; world = 0 }

abbrev bearer_answer : RestAuthResult
bearer_answer = record {
  uid = 7;
  scheme = "bearer";
  profile_ids = [];
  scopes = [];
  expires_at = none;
}

abbrev signed_in : Session ℕ
signed_in = record { uid = some 7; can_save = false; rest_auth = some bearer_answer; world = 1 }

extraction_tests :
    (bearer_extract (some "Bearer  k1 ") ≡ some "k1")
    × (bearer_extract (some "Bearer  ") ≡ none)
    × (bearer_extract (some "Basic k1") ≡ none)
    × (oauth2_extract (some "Bearer sot_a") ≡ some "sot_a")
    × (oauth2_extract (some "Bearer k1") ≡ none)
unfolding bearer_extract oauth2_extract
extraction_tests = (refl, refl, refl, refl, refl)

accepted_run : auth_method (env_with (some "Bearer k1")) both none fresh ≡ (returns tt, signed_in)
unfolding auth_method bearer_extract oauth2_extract bearer_provider
accepted_run = refl

rejected_run : auth_method (env_with (some "Bearer k2")) both none fresh ≡ (
  raises (rest_auth_error "invalid_credential" "Invalid or expired API key." 401 []),
  record fresh { world = 1 },
)
unfolding auth_method bearer_extract oauth2_extract bearer_provider
rejected_run = refl

broken_run :
    auth_method (env_with none) (("broken", "broken") ∷ []) none fresh
    ≡ (raises internal_server_error, fresh)
unfolding auth_method
broken_run = refl

auth_method-IsAuthenticated_example :
    IsAuthenticated (env_with (some "Bearer k1")) both none fresh signed_in
auth_method-IsAuthenticated_example =
    auth_method-IsAuthenticated (env_with (some "Bearer k1")) both none fresh signed_in accepted_run

no_scheme : Scan (env_with none) both []
unfolding bearer_extract oauth2_extract bearer_provider
no_scheme =
    Scan.skip (record { silent = header_provider none; known = refl; nothing = refl })
      (Scan.skip (record { silent = oauth2 none; known = refl; nothing = refl }) Scan.done)

both_candidates : candidate_schemes none both ≡ both
unfolding candidate_schemes
both_candidates = refl

candidates_silent : Scan (env_with none) (candidate_schemes none both) []
candidates_silent = rw both_candidates no_scheme

abbrev claimed_by : SchemeRef → Provider String ℕ ℕ → Extracted String ℕ ℕ
claimed_by ref p = record { code = ref.0; provider = p; credential = "sot_a" }

abbrev token_header : Option String
token_header = some "Bearer sot_a"

both_claim : Scan (env_with token_header) (candidate_schemes none both) (
    claimed_by bearer_ref (header_provider token_header)
    ∷ claimed_by oauth2_ref (oauth2 token_header)
    ∷ [])
unfolding candidate_schemes bearer_extract oauth2_extract bearer_provider
both_claim =
    Scan.take (record { same_code = refl; known = refl; credential = refl })
      (Scan.take (record { same_code = refl; known = refl; credential = refl }) Scan.done)

token_extracted : oauth2_extract token_header ≡ some "sot_a"
unfolding oauth2_extract
token_extracted = refl

broken-IsKnown : All (IsKnown (env_with none)) (("broken", "broken") ∷ [])
broken-IsKnown = (λ e. cc, tt)

auth_method-IsExpected_example :
    IsExpected (env_with none) (("broken", "broken") ∷ []) internal_server_error
unfolding candidate_schemes
auth_method-IsExpected_example =
    auth_method-IsExpected (env_with none) (("broken", "broken") ∷ []) none fresh fresh
      internal_server_error broken-IsKnown broken_run

abbrev basic : Scheme
basic = record { id = 1; code = "basic"; provider_model = "b"; sequence = pos 10; active = true }

abbrev api_key : Scheme
api_key = record { id = 2; code = "apikey"; provider_model = "k"; sequence = pos 5; active = true }

abbrev stored : Registry
stored = record { schemes = basic ∷ []; cache = none }

abbrev archive : Vals
archive = record {
  new_code = none;
  new_provider_model = none;
  new_sequence = none;
  new_active = some false;
}

abbrev history : List Event
history = read ∷ created (api_key ∷ []) ∷ read ∷ written (1 ∷ []) archive ∷ read ∷ []

history-run : (get_active_schemes (run history stored)).0 ≡ ("apikey", "k") ∷ []
unfolding run get_active_schemes
history-run = refl

get_active_schemes_fresh_example :
    (get_active_schemes (run history stored)).0 ≡ read_active_schemes (run history stored).schemes
get_active_schemes_fresh_example = get_active_schemes_fresh history stored refl
