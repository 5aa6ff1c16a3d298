-- ===== src/Oauth/Checks.antt =====
-- ssi_rest_api_auth_oauth2/models: what a client and a request are checked for: `_check_pkce` of
-- ssi_rest_oauth_token.py; the secret, the grants and the addresses of ssi_rest_oauth_client.py.
use ssi_rest_api.Prelude.{
  String, Bool, true, false, ◌&&◌, Option, none, some, List, [], ◌∷◌, map, ◌==◌, contains,
  if◌then◌else◌,
}
use ssi_rest_api.Prelude.Text.{is_ascii, split, strip}
use ssi_rest_api.Errors.{unclassified}
use ssi_rest_api.Dispatcher.Arguments.{Outcome, returns, raises}
use ssi_rest_api.Oauth.{
  Crypto, ClientType, confidential, public, Client, Token, text_or_empty, not_empty,
}

abbrev is_plain : Option String → Bool
is_plain none = false
is_plain (some m) = m == "plain"

abbrev pub is_confidential : ClientType → Bool
is_confidential confidential = true
is_confidential public = false

module _ (crypto : Crypto) where
  -- `secrets.compare_digest` of two texts, which must be ASCII.
  compare_digest : {R : Type 0} → String → String → Outcome R Bool
  unfolding is_ascii
  compare_digest a b =
      if is_ascii a && is_ascii b then returns (a == b) else raises (unclassified "TypeError")

  -- `code_verifier.encode("ascii")` raises for other texts.
  verifies : {R : Type 0} → String → Option String → String → Outcome R Bool
  unfolding compare_digest is_ascii
  verifies challenge method verifier =
      if is_plain method
      then compare_digest verifier challenge
      else if is_ascii verifier
      then compare_digest (crypto.s256 verifier) challenge
      else raises (unclassified "UnicodeEncodeError")

  unfoldable pub check_pkce : {R : Type 0} → Token → Option String → Outcome R Bool
  unfolding verifies
  check_pkce t verifier =
      if not_empty (text_or_empty t.code_challenge) && not_empty (text_or_empty verifier)
      then verifies (text_or_empty t.code_challenge) t.code_challenge_method
          (text_or_empty verifier)
      else returns false

  unfoldable pub check_client_secret : Client → Option String → Bool
  check_client_secret c secret =
      is_confidential c.client_type
      && not_empty c.client_secret_hash
      && not_empty (text_or_empty secret)
      && crypto.verify (text_or_empty secret) c.client_secret_hash

abbrev pub supported_grants : List String
supported_grants = "authorization_code" ∷ "client_credentials" ∷ "refresh_token" ∷ []

unfoldable pub allows_grant : Client → String → Bool
unfolding split strip
allows_grant c grant =
    contains grant supported_grants && contains grant (map strip (split b',' c.grant_types))

unfoldable pub has_redirect_uri : Client → String → Bool
has_redirect_uri c uri = contains uri c.redirect_uris
