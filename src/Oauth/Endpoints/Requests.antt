-- ===== src/Oauth/Endpoints/Requests.antt =====
-- ssi_rest_api_auth_oauth2/controllers/main.py: what the endpoints read of a request: parameters and the
-- credentials of the client.
use ssi_rest_api.Prelude.{ℕ, String, ◌&&◌, Option, none, some, List, [], ◌==◌, if◌then◌else◌}
use ssi_rest_api.Prelude.Dict.{Dict, lookup}
use ssi_rest_api.Prelude.Text.{strip_prefix, partition}
use ssi_rest_api.Errors.{Exception, rest_auth_error}
use ssi_rest_api.Oauth.{Crypto, Client, text_or_empty, first_where}

abbrev pub rejection : {R : Type 0} → String → String → ℕ → Exception R
rejection error_code description status = rest_auth_error error_code description status []

-- `search([("client_id", "=", client_id), ("active", "=", True)], limit=1)`
unfoldable pub find_client : String → List Client → Option Client
find_client client_id clients = first_where (λ c. (c.client_id == client_id) && c.active) clients

-- `kw.get(key)`, the empty text for `None`.
abbrev pub param : Dict String → String → String
param kw key = text_or_empty (lookup key kw)

abbrev credentials_or : String × String → Dict String → String × String
credentials_or (client_id, secret) kw =
    if client_id == ""
    then (param kw "client_id", param kw "client_secret")
    else (client_id, secret)

abbrev split_basic : String → Option (String × String) → String × String
split_basic decoded none = (decoded, "")
split_basic decoded (some parts) = parts

module _ (crypto : Crypto) (decode : String → Option String) where
  header_credentials : Option String → Dict String → String × String
  unfolding partition
  header_credentials none kw = (param kw "client_id", param kw "client_secret")
  header_credentials (some encoded) kw =
      let decoded = text_or_empty (decode encoded) in
      credentials_or (split_basic decoded (partition b':' decoded)) kw

  basic_part : Option String → Option String
  unfolding strip_prefix
  basic_part none = none
  basic_part (some header) = strip_prefix "Basic " header

  unfoldable pub extract_client_credentials : Option String → Dict String → String × String
  unfolding header_credentials basic_part
  extract_client_credentials header kw = header_credentials (basic_part header) kw
