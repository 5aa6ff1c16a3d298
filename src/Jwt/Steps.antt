-- ===== src/Jwt/Steps.antt =====
-- What one call of `_rest_auth_verify` does to the state, which is to resolve keys and nothing else, and the
-- two outcomes of an edit of the issuers.
use ssi_rest_api.Jwt.{PyJwt, Cached, Issuer, User, State, is_hmac}
use ssi_rest_api.Jwt.Cache.{get_client, cached_or_new, add_client, set_client}
use ssi_rest_api.Jwt.Issuers.{
  Vals, selects, is_constrained, all_checked, written_rows, create, write, invalidated_if,
  is_written, check_key_source,
}
use ssi_rest_api.Jwt.Provider.{
  candidates, resolve_signing_key, ask_client, verify_against_issuer, or_next, verify_each,
  verify_found, verify_claimed, search_result, catch_jwt_error, jwt_verify,
}
use ssi_rest_api.Prelude.{
  refl, ◌∙◌, Option, none, some, ◌==◌, if_keeps, ℕ, suc, String, ◌≡◌, Bool, true, false, not, ◌&&◌,
  keep_if, if_keeps-cases, Bool-cases, inl, inr, List, [], ◌∷◌, All,
}
use ssi_rest_api.Prelude.Dict.{Dict, lookup}
use ssi_rest_api.Prelude.Members.{All-keep_if, All-intro}
use ssi_rest_api.Errors.{rest_auth_error, http_exception, odoo_error, unclassified}
use ssi_rest_api.Dispatcher.Arguments.{Outcome, returns, raises}
use ssi_rest_api.Auth.{RestAuthResult}

module _ (R : Type 0) {V Key Client : Type 0} (jwt : PyJwt V Key Client) (now : ℕ)
    (token : String) where
  -- A predicate that resolving the key of the issuer keeps.
  abbrev pub Kept : (State Client → Type 0) → Issuer → Type 0
  Kept P i = (s : State Client) → P s → P (resolve_signing_key {R = R} jwt now token i s).1

  or_next-keeps :
      (P : State Client → Type 0) (r : Outcome R RestAuthResult × State Client)
      (next : State Client → Outcome R RestAuthResult × State Client)
      → P r.1
      → ((s : State Client) → P s → P (next s).1)
      → P (or_next jwt now token r next).1
  unfolding or_next
  or_next-keeps P (returns r, s) next h k = h
  or_next-keeps P (raises (rest_auth_error c d n x), s) next h k = k s h
  or_next-keeps P (raises (http_exception c x), s) next h k = h
  or_next-keeps P (raises (odoo_error c n m), s) next h k = h
  or_next-keeps P (raises (unclassified m), s) next h k = h

  verify_each-keeps :
      (P : State Client → Type 0) (rows : List Issuer)
      → All (Kept P) rows
      → (s : State Client) → P s
      → P (verify_each {R = R} jwt now token rows s).1
  unfolding verify_each verify_against_issuer
  verify_each-keeps P [] k s h = h
  verify_each-keeps P (i ∷ rows) (k, ks) s h =
      or_next-keeps P (verify_against_issuer jwt now token i s) (verify_each jwt now token rows)
        (k s h) (verify_each-keeps P rows ks)

  verify_found-keeps :
      (P : State Client → Type 0) (e : Option String) (rows : List Issuer)
      → All (Kept P) rows
      → (s : State Client) → P s
      → P (verify_found {R = R} jwt now token (search_result e rows) s).1
  verify_found-keeps P none rows k s h = verify_each-keeps P rows k s h
  verify_found-keeps P (some message) rows k s h = h

  verify_claimed-keeps :
      (P : State Client → Type 0) (claims : Outcome R (Dict V)) (s : State Client)
      → All (Kept P) s.issuers
      → P s
      → P (verify_claimed jwt now token claims s).1
  unfolding verify_claimed candidates
  verify_claimed-keeps P (raises e) s k h = h
  verify_claimed-keeps P (returns claims) s k h =
      verify_found-keeps P (jwt.search_error (lookup "iss" claims))
        (candidates jwt (lookup "iss" claims) s.issuers) (All-keep_if (Kept P) _ s.issuers k) s h

  pub jwt_verify-keeps :
      (P : State Client → Type 0) (s : State Client)
      → All (Kept P) s.issuers
      → P s
      → P (jwt_verify {R = R} jwt now token s).1
  unfolding jwt_verify
  jwt_verify-keeps P s k h = verify_claimed-keeps P (catch_jwt_error (jwt.peek token)) s k h

  pub resolve-Kept :
      (P : State Client → Type 0) (i : Issuer)
      → (is_hmac i.algorithm ≡ false
          → (s : State Client) → P s
          → P (ask_client {R = R} jwt now token i.id (get_client jwt i.id i.jwks_url s)).1)
      → Kept P i
  unfolding resolve_signing_key
  resolve-Kept P i asks s h = elim (Bool-cases (is_hmac i.algorithm)) [
    | inl hmac ↦ rw hmac h
    | inr key_set ↦ rw key_set (asks key_set s h)
  ]

  -- A verification leaves the rows and the users alone.
  same_rows :
      (o : Option (Cached Client)) (id : ℕ) (url : String) (s : State Client)
      → ((cached_or_new jwt o id url s).1.issuers ≡ s.issuers)
        × ((cached_or_new jwt o id url s).1.users ≡ s.users)
  unfolding cached_or_new add_client set_client
  same_rows none id url s = (refl, refl)
  same_rows (some entry) id url s =
      if_keeps
        (λ (c : Cached Client × State Client). (c.1.issuers ≡ s.issuers) × (c.1.users ≡ s.users))
        (entry.jwks_url == url) {x = (entry, s)} {y = add_client jwt id url s} (refl, refl)
        (refl, refl)

  pub users-Kept : (users : List User) (i : Issuer) → Kept (λ s. s.users ≡ users) i
  unfolding ask_client set_client get_client
  users-Kept users i =
      resolve-Kept (λ s. s.users ≡ users) i
        (λ _ s e. (same_rows (s.clients i.id) i.id i.jwks_url s).1 ∙ e)

  issuers-Kept : (issuers : List Issuer) (i : Issuer) → Kept (λ s. s.issuers ≡ issuers) i
  unfolding ask_client set_client get_client
  issuers-Kept issuers i =
      resolve-Kept (λ s. s.issuers ≡ issuers) i
        (λ _ s e. (same_rows (s.clients i.id) i.id i.jwks_url s).0 ∙ e)

  pub issuers-jwt_verify :
      (s : State Client) → (jwt_verify {R = R} jwt now token s).1.issuers ≡ s.issuers
  issuers-jwt_verify s =
      jwt_verify-keeps (λ t. t.issuers ≡ s.issuers) s
        (All-intro (Kept (λ t. t.issuers ≡ s.issuers)) (issuers-Kept s.issuers) s.issuers) refl

module _ {Client : Type 0} (P : Bool × State Client → Type 0) (s : State Client) where
  -- What holds of both outcomes of a creation or of a write, each with its condition.
  pub create-cases :
      (i : Issuer)
      → P (false, s)
      → (check_key_source (record i { id = s.next_id }) ≡ true
          → P (
            true,
            record s { issuers = record i { id = s.next_id } ∷ s.issuers; next_id = suc s.next_id },
          ))
      → P (create i s)
  unfolding create
  create-cases i refused done =
      if_keeps-cases P (check_key_source (record i { id = s.next_id })) done (λ _. refused)

  pub write-cases :
      (ids : List ℕ) (v : Vals)
      → P (false, s)
      → ((is_constrained v
              && not (all_checked (keep_if (selects ids) (written_rows ids v s.issuers))))
            ≡ false
          → P (
            true,
            invalidated_if
                (is_written v.jwks_url)
                ids
                (record s { issuers = written_rows ids v s.issuers }),
          ))
      → P (write ids v s)
  unfolding write
  write-cases ids v refused done =
      if_keeps-cases P
        (is_constrained v
          && not (all_checked (keep_if (selects ids) (written_rows ids v s.issuers))))
        (λ _. refused) done
