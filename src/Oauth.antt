-- ===== src/Oauth.antt =====
-- ssi_rest_api_auth_oauth2/models/ssi_rest_oauth_token.py and ssi_rest_oauth_client.py: the OAuth2
-- clients and the store of codes and tokens. Timestamps count seconds. passlib's hash and
-- verification and the S256 transform of `_check_pkce` (SHA-256 in base64) are the record Crypto;
-- what `secrets` and passlib draw at random is an argument of each issue. The endpoints are in
-- Oauth/Endpoints.
pub mod Endpoints
pub mod Events
pub mod Lookup
pub mod Branches
pub mod Checks
pub mod Spent
pub mod Unusable
pub mod Redeemed
pub mod Revoked
pub mod Provider
pub mod Issue
pub mod Access
pub mod Credentials
pub mod Expiry
pub mod Grants
pub mod Appended
pub mod Redirected
pub mod Secrets
mod Tests
use Prim.Native.String.{◌++◌ as append}
use ssi_rest_api.Prelude.{
  ℕ, suc, String, Bool, true, false, ◌&&◌, not, Option, none, some, List, [], ◌∷◌, map, ◌==◌,
  nat_eq, any_of, keep_if, contains, if◌then◌else◌,
}
use ssi_rest_api.Prelude.Int.{ℤ, plus_ℤ, exceeds, leb_ℤ, pos}
use ssi_rest_api.Prelude.Text.{slice_to, is_ascii, split, strip}
use ssi_rest_api.Errors.{unclassified}
use ssi_rest_api.Auth.Extraction.{token_prefix}
use ssi_rest_api.Dispatcher.Arguments.{Outcome, returns, raises}

-- passlib's `hash`, with the salt that it draws, and `verify`; the S256 transform of PKCE.
pub record Crypto : Type 0 where
  pub hash : (salt raw : String) → String
  pub verify : (raw stored : String) → Bool
  pub s256 : String → String

-- What one issue draws: `secrets.token_urlsafe(32)` and passlib's salt.
pub record Draw : Type 0 where
  pub token_urlsafe : String
  pub salt : String

pub data ClientType : Type 0 where
  confidential public : ClientType

pub record Client : Type 0 where
  pub id : ℕ
  pub active : Bool
  pub client_id : String
  pub client_secret_hash : String
  pub client_type : ClientType
  pub redirect_uris : List String
  pub grant_types : String
  pub scope_codes : List String
  pub access_token_lifetime : ℤ
  pub refresh_token_lifetime : ℤ
  pub profile_id : Option ℕ

pub data TokenType : Type 0 where
  code access refresh : TokenType

unfoldable pub same_type : TokenType → TokenType → Bool
same_type code code = true
same_type access access = true
same_type refresh refresh = true
same_type _ _ = false

-- A row of `ssi_rest_oauth_token`; `client` is the id of its client. Empty text is `False`.
pub record Token : Type 0 where
  pub id : ℕ
  pub client : ℕ
  pub user_id : Option ℕ
  pub token_index : String
  pub token_hash : String
  pub token_type : TokenType
  pub scope : String
  pub expiration_date : ℤ
  pub revoked : Bool
  pub code_challenge : Option String
  pub code_challenge_method : Option String

-- The rows, the newest first (`_order = "create_date desc"`), and the id of the next one.
pub record Store : Type 0 where
  pub tokens : List Token
  pub next_id : ℕ

abbrev pub token_index_size : ℕ
token_index_size = 12

abbrev pub auth_code_lifetime_seconds : ℤ
auth_code_lifetime_seconds = pos 300

-- `scope or ""`
abbrev pub text_or_empty : Option String → String
text_or_empty none = ""
text_or_empty (some s) = s

abbrev pub not_empty : String → Bool
not_empty s = not (s == "")

-- `for candidate in candidates: if ...: return candidate`
abbrev pub first_where {ℓ} : {A : Type ℓ} → (A → Bool) → List A → Option A
first_where p [] = none
first_where p (x ∷ xs) = let rest = first_where p xs in if p x then some x else rest

unfoldable pub raw_value : Draw → String
raw_value d = append token_prefix d.token_urlsafe

abbrev pub of_client : Option Client → Token → Bool
of_client none t = true
of_client (some c) t = nat_eq t.client c.id

abbrev is_access_or_refresh : TokenType → Bool
is_access_or_refresh code = false
is_access_or_refresh access = true
is_access_or_refresh refresh = true

-- The domain of `_lookup`.
unfoldable pub in_domain : String → TokenType → Option Client → ℕ → Token → Bool
unfolding slice_to same_type
in_domain raw type client now t =
    (t.token_index == slice_to token_index_size raw)
    && same_type t.token_type type
    && not t.revoked
    && exceeds t.expiration_date now
    && of_client client t

-- The domain of `_lookup_for_revoke`.
unfoldable pub in_revoke_domain : String → Client → Token → Bool
unfolding slice_to
in_revoke_domain raw client t =
    (t.token_index == slice_to token_index_size raw)
    && is_access_or_refresh t.token_type
    && nat_eq t.client client.id

module _ (crypto : Crypto) where
  -- What `_issue` is given beside the store and the time.
  unfoldable pub issued_token :
      ℕ
      → Client
      → Option ℕ
      → TokenType
      → Option String
      → ℤ
      → Option String
      → Option String
      → ℕ
      → Draw
      → Token
  unfolding raw_value slice_to
  issued_token new client user type scope lifetime challenge method now d = record {
    id = new;
    client = client.id;
    user_id = user;
    token_index = slice_to token_index_size (raw_value d);
    token_hash = crypto.hash d.salt (raw_value d);
    token_type = type;
    scope = text_or_empty scope;
    expiration_date = plus_ℤ now lifetime;
    revoked = false;
    code_challenge = challenge;
    code_challenge_method = method;
  }

  -- `_issue` returns the raw value beside the record that it creates.
  unfoldable pub issue :
      Client
      → Option ℕ
      → TokenType
      → Option String
      → ℤ
      → Option String
      → Option String
      → ℕ
      → Draw
      → Store
      → String × Store
  unfolding issued_token raw_value
  issue client user type scope lifetime challenge method now d s = (
    raw_value d,
    record {
      tokens =
          issued_token s.next_id client user type scope lifetime challenge method now d ∷ s.tokens;
      next_id = suc s.next_id;
    },
  )

  -- `candidate.token_hash and _CRYPT_CONTEXT.verify(raw_value, candidate.token_hash)`
  unfoldable pub hash_matches : String → Token → Bool
  hash_matches raw t = not_empty t.token_hash && crypto.verify raw t.token_hash

  unfoldable pub lookup_token : String → TokenType → Option Client → ℕ → Store → Option Token
  unfolding in_domain hash_matches
  lookup_token raw type client now s =
      if raw == ""
      then none
      else first_where (hash_matches raw) (keep_if (in_domain raw type client now) s.tokens)

  unfoldable pub lookup_for_revoke : String → Client → Store → Option Token
  unfolding in_revoke_domain hash_matches
  lookup_for_revoke raw client s =
      if raw == ""
      then none
      else first_where (hash_matches raw) (keep_if (in_revoke_domain raw client) s.tokens)

-- `record.write({"revoked": True})`, for one row and for those of `action_revoke`.
unfoldable pub revoke_rows : List ℕ → Store → Store
revoke_rows ids s = record s {
  tokens = map (λ t. if any_of (nat_eq t.id) ids then record t { revoked = true } else t) s.tokens;
}

-- `_gc_expired_oauth_token`: the rows with `expiration_date < now` are deleted.
unfoldable pub gc_expired : ℕ → Store → Store
gc_expired now s = record s { tokens = keep_if (λ t. leb_ℤ (pos now) t.expiration_date) s.tokens }
