-- ===== src/Jwt/Cache.antt =====
-- ssi_rest_api_auth_jwt/lib/jwks_cache.py: one PyJWKClient for each issuer, in one process. The lock makes
-- each function one step.
use ssi_rest_api.Jwt.{PyJwt, Cached, State}
use ssi_rest_api.Prelude.{
  ℕ, suc, String, Option, none, some, List, [], ◌∷◌, nat_eq, ◌==◌, if◌then◌else◌,
}

abbrev pub jwks_cache_ttl_seconds : ℕ
jwks_cache_ttl_seconds = 300

module _ {Client : Type 0} where
  -- `_clients[issuer_id] = ...`, and `pop` for `none`.
  unfoldable pub set_client : ℕ → Option (Cached Client) → State Client → State Client
  set_client id entry s = record s {
    clients = λ key. if nat_eq id key then entry else s.clients key;
  }

  unfoldable pub invalidate : ℕ → State Client → State Client
  unfolding set_client
  invalidate id s = set_client id none s

  -- `for record_id in record_ids: ...`
  unfoldable pub invalidate_all : List ℕ → State Client → State Client
  unfolding invalidate
  invalidate_all [] s = s
  invalidate_all (id ∷ ids) s = invalidate_all ids (invalidate id s)

  module _ {V Key : Type 0} (jwt : PyJwt V Key Client) where
    unfoldable pub new_entry : String → ℕ → Cached Client
    new_entry url serial = record {
      jwks_url = url;
      serial = serial;
      client = jwt.new_client url jwks_cache_ttl_seconds;
    }

    unfoldable pub add_client : ℕ → String → State Client → Cached Client × State Client
    unfolding new_entry set_client
    add_client id url s = (
      new_entry url s.next_serial,
      set_client id (some (new_entry url s.next_serial))
          (record s { next_serial = suc s.next_serial }),
    )

    unfoldable pub cached_or_new :
        Option (Cached Client) → ℕ → String → State Client → Cached Client × State Client
    unfolding add_client
    cached_or_new none id url s = add_client id url s
    cached_or_new (some entry) id url s =
        if entry.jwks_url == url then (entry, s) else add_client id url s

    unfoldable pub get_client : ℕ → String → State Client → Cached Client × State Client
    unfolding cached_or_new
    get_client id url s = cached_or_new (s.clients id) id url s
