-- ===== src/Jwt/Issuers.antt =====
-- ssi_rest_api_auth_jwt/models/ssi_rest_jwt_issuer.py: the records of issuers. A ValidationError undoes
-- the transaction: the state stays as it was, and the statements after `super()` do not run.
use ssi_rest_api.Jwt.{Algorithm, is_hmac, MatchField, Issuer, State}
use ssi_rest_api.Jwt.Cache.{invalidate_all}
use ssi_rest_api.Auth.Registry.{given}
use ssi_rest_api.Prelude.{
  ℕ, suc, String, Bool, true, false, ◌&&◌, ◌||◌, not, Option, none, some, List, [], ◌∷◌, map,
  nat_eq, any_of, keep_if, ◌==◌, if◌then◌else◌,
}
use ssi_rest_api.Prelude.Int.{ℤ}

-- `_check_key_source` of one record: whether it raises nothing.
unfoldable pub check_key_source : Issuer → Bool
unfolding is_hmac
check_key_source i =
    if is_hmac i.algorithm then not (i.shared_secret == "") else not (i.jwks_url == "")

-- The values of a `write`; `none` leaves the field alone.
pub record Vals : Type 0 where
  pub active : Option Bool
  pub issuer : Option String
  pub audience : Option String
  pub algorithm : Option Algorithm
  pub jwks_url : Option String
  pub shared_secret : Option String
  pub user_claim : Option String
  pub user_match_field : Option MatchField
  pub leeway : Option ℤ
  pub profile_id : Option (Option ℕ)

abbrev pub is_written {ℓ} : {A : Type ℓ} → Option A → Bool
is_written none = false
is_written (some new) = true

unfoldable pub write_one : Vals → Issuer → Issuer
write_one v i = record {
  id = i.id;
  active = given v.active i.active;
  issuer = given v.issuer i.issuer;
  audience = given v.audience i.audience;
  algorithm = given v.algorithm i.algorithm;
  jwks_url = given v.jwks_url i.jwks_url;
  shared_secret = given v.shared_secret i.shared_secret;
  user_claim = given v.user_claim i.user_claim;
  user_match_field = given v.user_match_field i.user_match_field;
  leeway = given v.leeway i.leeway;
  profile_id = given v.profile_id i.profile_id;
}

abbrev pub selects : List ℕ → Issuer → Bool
selects ids i = any_of (nat_eq i.id) ids

-- `@api.constrains("algorithm", "jwks_url", "shared_secret")`
unfoldable pub is_constrained : Vals → Bool
is_constrained v = is_written v.algorithm || is_written v.jwks_url || is_written v.shared_secret

abbrev pub all_checked : List Issuer → Bool
all_checked [] = true
all_checked (i ∷ is_) = check_key_source i && all_checked is_

-- The rows after `super().write(vals)`.
unfoldable pub written_rows : List ℕ → Vals → List Issuer → List Issuer
unfolding write_one
written_rows ids v rows = map (λ i. if selects ids i then write_one v i else i) rows

module _ {Client : Type 0} where
  -- The id of a new record is the database's. The result says whether nothing was raised.
  unfoldable pub create : Issuer → State Client → Bool × State Client
  unfolding check_key_source
  create i s =
      let new = record i { id = s.next_id } in
      if check_key_source new
      then (true, record s { issuers = new ∷ s.issuers; next_id = suc s.next_id })
      else (false, s)

  -- `if "jwks_url" in vals: ...`
  unfoldable pub invalidated_if : Bool → List ℕ → State Client → State Client
  unfolding invalidate_all
  invalidated_if true ids s = invalidate_all ids s
  invalidated_if false ids s = s

  unfoldable pub write : List ℕ → Vals → State Client → Bool × State Client
  unfolding written_rows is_constrained check_key_source invalidated_if
  write ids v s =
      let rows = written_rows ids v s.issuers in
      if is_constrained v && not (all_checked (keep_if (selects ids) rows))
      then (false, s)
      else (true, invalidated_if (is_written v.jwks_url) ids (record s { issuers = rows }))

  unfoldable pub unlink : List ℕ → State Client → State Client
  unfolding invalidate_all
  unlink ids s =
      invalidate_all ids (record s { issuers = keep_if (λ i. not (selects ids i)) s.issuers })
