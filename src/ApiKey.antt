-- ===== src/ApiKey.antt =====
-- ssi_rest_api_auth_apikey/models/ssi_rest_api_key.py and ssi_rest_auth_apikey.py: the keys of users, of
-- which only a hash and the first characters are stored, and the provider that verifies them. passlib's
-- `hash` and `verify` are those of Oauth's Crypto; what `secrets` and passlib draw is an argument.
pub mod Events
pub mod Lookup
pub mod Refinement
pub mod Rows
pub mod Spec
mod Tests
use Prim.Native.String.{◌++◌ as append}
use ssi_rest_api.Prelude.{
  ℕ, suc, String, Bool, true, false, ◌&&◌, Option, none, some, List, [], ◌∷◌, map, ◌==◌, ltb,
  nat_eq, keep_if, if◌then◌else◌,
}
use ssi_rest_api.Prelude.Text.{slice_to, strip}
use ssi_rest_api.Errors.{Exception, rest_auth_error}
use ssi_rest_api.Dispatcher.Arguments.{Outcome, returns, raises}
use ssi_rest_api.Auth.{RestAuthResult, Provider}
use ssi_rest_api.Oauth.{Crypto, Draw, first_where}

-- A row of `ssi_rest_api_key`; `none` is `False`.
pub record Key : Type 0 where
  pub id : ℕ
  pub user_id : ℕ
  pub profile_id : ℕ
  pub key_index : Option String
  pub key_hash : Option String
  pub expiration_date : Option ℕ
  pub active : Bool
  pub last_used_date : Option ℕ

-- The rows in the order of the model, `id desc`, and the id of the next one.
pub record KeyStore : Type 0 where
  pub keys : List Key
  pub next_id : ℕ

abbrev pub key_prefix : String
key_prefix = "sak_"

abbrev pub key_index_size : ℕ
key_index_size = 12

-- `record.write({...})`
abbrev pub write : ℕ → (Key → Key) → KeyStore → KeyStore
write id change s = record s { keys = map (λ k. if nat_eq k.id id then change k else k) s.keys }

abbrev pub is_later : ℕ → Option ℕ → Bool
is_later now none = true
is_later now (some date) = ltb now date

abbrev pub is_text : String → Option String → Bool
is_text s none = false
is_text s (some t) = t == s

-- `_generate_raw_key`
unfoldable pub generate_raw_key : Draw → String
generate_raw_key d = append key_prefix d.token_urlsafe

module _ (crypto : Crypto) where
  -- What `_generate_new_key` writes.
  unfoldable pub with_key : Draw → Key → Key
  unfolding generate_raw_key slice_to
  with_key d k = record k {
    key_index = some (slice_to key_index_size (generate_raw_key d));
    key_hash = some (crypto.hash d.salt (generate_raw_key d));
  }

  unfoldable pub generate_new_key : ℕ → Draw → KeyStore → String × KeyStore
  unfolding with_key
  generate_new_key id d s = (generate_raw_key d, write id (with_key d) s)

  -- `action_generate_key`, with what each record draws: the key of the last one is shown. Without a
  -- record `result` is not assigned, and Python raises.
  unfoldable pub action_generate_key : List (ℕ × Draw) → KeyStore → Option String × KeyStore
  unfolding generate_new_key
  action_generate_key [] s = (none, s)
  action_generate_key ((id, d) ∷ []) s = let (raw, s') = generate_new_key id d s in (some raw, s')
  action_generate_key ((id, d) ∷ next ∷ more) s =
      action_generate_key (next ∷ more) (generate_new_key id d s).1

  -- The domain of the search of `_authenticate`.
  unfoldable pub in_domain : String → ℕ → Key → Bool
  unfolding slice_to
  in_domain raw now k =
      is_text (slice_to key_index_size raw) k.key_index
      && k.active
      && is_later now k.expiration_date

  -- `candidate.key_hash and _CRYPT_CONTEXT.verify(raw_key, candidate.key_hash)`
  abbrev pub verifies_text : String → Option String → Bool
  verifies_text raw none = false
  verifies_text raw (some stored) = if stored == "" then false else crypto.verify raw stored

  unfoldable pub hash_matches : String → Key → Bool
  hash_matches raw k = verifies_text raw k.key_hash

  unfoldable pub authenticate : String → ℕ → KeyStore → Option Key
  unfolding in_domain hash_matches
  authenticate raw now s =
      if raw == ""
      then none
      else first_where (hash_matches raw) (keep_if (in_domain raw now) s.keys)

-- `_touch_last_used_date`: `skips` is the test of `_skip_last_used_write_under_test_harness`, and
-- `succeeds` whether the write through a cursor of its own does; an exception is swallowed.
unfoldable pub touch_last_used_date : (skips succeeds : Bool) (now : ℕ) → Key → KeyStore → KeyStore
touch_last_used_date skips succeeds now k s =
    if skips
    then s
    else if succeeds
    then write k.id (λ row. record row { last_used_date = some now }) s
    else s

abbrev non_empty : String → Option String
non_empty String.[] = none
non_empty (String.◌∷◌ c s) = some (String.◌∷◌ c s)

-- `_rest_auth_extract`, of the header `X-Api-Key`.
unfoldable pub apikey_extract : Option String → Option String
unfolding strip
apikey_extract none = none
apikey_extract (some header) = non_empty (strip header)

abbrev pub invalid_credential : {R : Type 0} → Exception R
invalid_credential = rest_auth_error "invalid_credential" "Invalid or expired API key." 401 []

abbrev pub key_result : (uid profile : ℕ) → RestAuthResult
key_result uid profile = record {
  uid = uid;
  scheme = "apikey";
  profile_ids = profile ∷ [];
  scopes = [];
  expires_at = none;
}

-- `_rest_auth_verify`, after `_authenticate`.
unfoldable pub verified_key :
    {R : Type 0}
    → (skips succeeds : Bool) (now : ℕ) → Option Key
    → KeyStore
    → Outcome R RestAuthResult × KeyStore
unfolding touch_last_used_date
verified_key skips succeeds now none s = (raises invalid_credential, s)
verified_key skips succeeds now (some k) s =
    (returns (key_result k.user_id k.profile_id), touch_last_used_date skips succeeds now k s)

-- A request with the header `X-Api-Key`, at the time `now`.
unfoldable pub apikey_provider :
    {R : Type 0}
    → Crypto
    → Option String
    → (skips succeeds : Bool) (now : ℕ) → Provider String KeyStore R
unfolding apikey_extract authenticate verified_key
apikey_provider crypto header skips succeeds now = record {
  rest_auth_extract = returns (apikey_extract header);
  rest_auth_verify = λ raw s. verified_key skips succeeds now (authenticate crypto raw now s) s;
  rest_auth_challenge = returns "ApiKey realm=\"ssi_rest\"";
}
