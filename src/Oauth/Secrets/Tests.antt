-- ===== src/Oauth/Secrets/Tests.antt =====
-- A new secret of a confidential client, with a hash that marks the text.
use ssi_rest_api.Dispatcher.Arguments.{raises}
use ssi_rest_api.Errors.{odoo_error, user_error}
use ssi_rest_api.Oauth.{Crypto, Draw, Client, ClientType, confidential, public}
use ssi_rest_api.Oauth.Issue.{IsSound}
use ssi_rest_api.Oauth.Secrets.{action_generate_client_secret, confidential_only}
use ssi_rest_api.Prelude.{String, ◌≡◌, refl, true, none, [], ◌∷◌, ◌==◌, eq_refl, eq-false_of_ne}
use ssi_rest_api.Prelude.Int.{pos}

abbrev marked : Crypto
marked = record {
  hash = λ salt raw. String.◌∷◌ "#" raw;
  verify = λ raw stored. stored == String.◌∷◌ "#" raw;
  s256 = λ verifier. verifier;
}

marked-IsSound : IsSound marked
marked-IsSound = record {
  own = λ salt raw. eq_refl (String.◌∷◌ "#" raw);
  present = λ salt raw. rw (eq-false_of_ne (String.◌∷◌ "#" raw) "" (λ h. cc)) refl;
}

abbrev client : ClientType → Client
client type = record {
  id = 4;
  active = true;
  client_id = "backend";
  client_secret_hash = "#soc_old";
  client_type = type;
  redirect_uris = [];
  grant_types = "client_credentials";
  scope_codes = [];
  access_token_lifetime = pos 3600;
  refresh_token_lifetime = pos 1209600;
  profile_id = none;
}

abbrev drawn : Draw
drawn = record { token_urlsafe = "new"; salt = "" }

public_test :
    action_generate_client_secret marked {R = String}
      ((client confidential, drawn) ∷ (client public, drawn) ∷ [])
    ≡ raises (odoo_error user_error 422 confidential_only)
unfolding action_generate_client_secret
public_test = refl
