-- ===== src/Oauth/Secrets.antt =====
-- ssi_rest_api_auth_oauth2/models/ssi_rest_oauth_client.py: the secret of a confidential client.
mod Tests
use Prim.Native.String.{◌++◌ as append}
use text.Mathlib.TextLemmas.{cons-append}
use ssi_rest_api.Dispatcher.Arguments.{Outcome, returns, raises}
use ssi_rest_api.Errors.{odoo_error, user_error}
use ssi_rest_api.Oauth.{Crypto, Draw, Client, ClientType, confidential, public}
use ssi_rest_api.Oauth.Checks.{check_client_secret, is_confidential}
use ssi_rest_api.Oauth.Issue.{IsSound}
use ssi_rest_api.Prelude.{
  ℕ, String, ◌≡◌, refl, ◌∙◌, sym, true, false, Option, none, some, List, [], ◌∷◌, map, nat_eq,
  if◌then◌else◌, eq-false_of_ne, ◌==◌,
}

abbrev pub secret_prefix : String
secret_prefix = "soc_"

unfoldable raw_secret : Draw → String
raw_secret d = append secret_prefix d.token_urlsafe

-- The notification that shows a secret is its text.
abbrev pub confidential_only : String
confidential_only =
    "Only confidential clients have a client secret. Public clients authenticate with PKCE instead."

raw_secret-not_empty : (d : Draw) → (raw_secret d == "") ≡ false
unfolding raw_secret
raw_secret-not_empty d =
    eq-false_of_ne (raw_secret d) ""
      (λ h. let cons_is_empty = sym (cons-append "s" "oc_" d.token_urlsafe) ∙ h in cc)

module _ (crypto : Crypto) where
  unfoldable pub generate_new_client_secret : Draw → Client → String × Client
  unfolding raw_secret
  generate_new_client_secret d c =
      (raw_secret d, record c { client_secret_hash = crypto.hash d.salt (raw_secret d) })

  -- Odoo's `UserError` has the status 422.
  unfoldable pub generate_client_secret_action :
      {R : Type 0} → Draw → Client → Outcome R (String × Client)
  unfolding generate_new_client_secret
  generate_client_secret_action d c =
      if is_confidential c.client_type
      then returns (generate_new_client_secret d c)
      else raises (odoo_error user_error 422 confidential_only)

  abbrev pub add_changed :
      {R : Type 0}
      → Outcome R (String × Client)
      → Outcome R (Option String × List Client)
      → Outcome R (Option String × List Client)
  add_changed (raises e) rest = raises e
  add_changed (returns (raw, c)) (raises e) = raises e
  add_changed (returns (raw, c)) (returns (none, cs)) = returns (some raw, c ∷ cs)
  add_changed (returns (raw, c)) (returns (some last, cs)) = returns (some last, c ∷ cs)

  -- The loop of `action_generate_client_secret`: the secret of the last client is shown, and the first
  -- exception rolls everything back.
  unfoldable pub action_generate_client_secret :
      {R : Type 0} → List (Client × Draw) → Outcome R (Option String × List Client)
  unfolding generate_client_secret_action
  action_generate_client_secret [] = returns (none, [])
  action_generate_client_secret ((c, d) ∷ rest) =
      add_changed (generate_client_secret_action d c) (action_generate_client_secret rest)

  -- If a hash verifies against its own text and is not empty, the raw secret that is generated
  -- for a confidential client is the one that it authenticates with afterwards.
  pub check_client_secret-generated :
      (sound : IsSound crypto) (d : Draw) (c : Client)
      → is_confidential c.client_type ≡ true
      → check_client_secret crypto
          (generate_new_client_secret d c).1
          (some (generate_new_client_secret d c).0)
        ≡ true
  unfolding check_client_secret generate_new_client_secret
  check_client_secret-generated sound d c h = rw h (
      rw (sound.present d.salt (raw_secret d))
        (rw (raw_secret-not_empty d) (sound.own d.salt (raw_secret d))))
