-- ===== src/Oauth/Provider.antt =====
-- ssi_rest_api_auth_oauth2/models/ssi_rest_auth_oauth2.py: the provider that verifies access tokens.
use ssi_rest_api.Prelude.{
  ℕ, String, Option, none, some, List, [], ◌∷◌, nat_eq, keep_if, if◌then◌else◌,
}
use Prim.Native.Char.{Char, code as char_code}
use ssi_rest_api.Prelude.Text.{is_space}
use ssi_rest_api.Errors.{rest_auth_error}
use ssi_rest_api.Dispatcher.Arguments.{Outcome, returns, raises}
use ssi_rest_api.Auth.{RestAuthResult, Provider}
use ssi_rest_api.Auth.Extraction.{oauth2_extract}
use ssi_rest_api.Oauth.{Crypto, Client, Token, access, first_where, lookup_token, not_empty}
use ssi_rest_api.Oauth.Events.{State}

abbrev add_char : Char → List String → List String
add_char c [] = String.◌∷◌ c "" ∷ []
add_char c (w ∷ ws) = String.◌∷◌ c w ∷ ws

pieces : String → List String
pieces String.[] = "" ∷ []
pieces (String.◌∷◌ c s) =
    let rest = pieces s in if is_space (char_code c) then "" ∷ rest else add_char c rest

-- `s.split()`
unfoldable pub words : String → List String
unfolding pieces
words s = keep_if not_empty (pieces s)

abbrev to_list : Option ℕ → List ℕ
to_list none = []
to_list (some n) = n ∷ []

abbrev profile_of : Option Client → List ℕ
profile_of none = []
profile_of (some c) = to_list c.profile_id

abbrev pub user_or : ℕ → Option ℕ → ℕ
user_or public_user none = public_user
user_or public_user (some uid) = uid

-- `public_user` is the id of `base.public_user`.
unfoldable pub token_result : ℕ → List Client → Token → RestAuthResult
unfolding words
token_result public_user clients t = record {
  uid = user_or public_user t.user_id;
  scheme = "oauth2";
  profile_ids = profile_of (first_where (λ c. nat_eq c.id t.client) clients);
  scopes = words t.scope;
  expires_at = some t.expiration_date;
}

unfoldable pub verified : {R : Type 0} → ℕ → List Client → Option Token → Outcome R RestAuthResult
unfolding token_result
verified public_user clients none =
    raises
      (rest_auth_error "invalid_credential" "Invalid, expired, or revoked access token." 401 [])
verified public_user clients (some t) = returns (token_result public_user clients t)

-- A request with the header `Authorization`, at the time `now`; the world is the module's database.
unfoldable pub oauth2_provider :
    {R : Type 0} → Crypto → ℕ → Option String → ℕ → Provider String State R
unfolding verified lookup_token oauth2_extract
oauth2_provider crypto public_user header now = record {
  rest_auth_extract = returns (oauth2_extract header);
  rest_auth_verify = λ token st.
      (verified public_user st.clients (lookup_token crypto token access none now st.store), st);
  rest_auth_challenge = returns "Bearer realm=\"ssi_rest\"";
}
